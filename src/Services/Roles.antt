-- ===== src/Services/Roles.antt =====
-- services/RoleService.cc.
pub mod Laws
use cppadmin.Base.{
  Bytes, bytes, Bool, ◌&&◌, not, List, Option, none, some, map, null, is_empty, if◌then◌else◌, ◌==◌,
  bytes_eq,
}
use mathlib.Core.Option
use cppadmin.Error.{Error, not_found_error, conflict_error}
use cppadmin.Error.Effect.{Effect, pure, throw_if, reads, writes, ◌>>=◌, ◌>>◌}
use cppadmin.Database.{Database}
use cppadmin.Database.Schema.{
  roles, roles_permissions, permissions_of_role, insert_or_ignore, delete_link,
}
use cppadmin.Database.Schema
use cppadmin.Models.Field.{value_of}
use cppadmin.Models.Roles.{
  Roles, empty, from_row, insert_columns, output_args, update_columns, update_args,
}
use cppadmin.Models.Permissions.{Permissions}
use cppadmin.Models.Permissions
use cppadmin.Services.Mapper.{
  find_by, find_by_primary_key, exec, link_all, replace_links, unlink_each,
}
use cppadmin.Services.Mapper
use cppadmin.Services.Users.{or_default, set_some}

pub record RoleCreateInput : Type 0 where
  pub name : Bytes
  pub guard_name : Bytes
  pub status : Bytes
  pub desc : Bytes
  pub permission_ids : List Bytes

pub record RoleUpdateInput : Type 0 where
  pub name : Bytes
  pub guard_name : Bytes
  pub status : Bytes
  pub desc : Bytes
  pub permission_ids : List Bytes

-- The object that `create` inserts.
unfoldable pub created : Bytes → RoleCreateInput → Bytes → Roles
created uuid input actor = record empty {
  id = some uuid;
  name = some input.name;
  guard_name = some (or_default input.guard_name (bytes "web"));
  status = some (or_default input.status (bytes "Active"));
  desc = set_some input.desc none;
  created_by = some actor;
  updated_by = some actor;
}

-- !input.name.empty() && input.name != r.getValueOfName()
abbrev pub is_renamed : RoleUpdateInput → Roles → Bool
is_renamed input r = not (is_empty input.name) && not (input.name == value_of r.name)

-- The object that `update` saves.
unfoldable pub edited : RoleUpdateInput → Bytes → Roles → Roles
edited input actor r = record r {
  name = if is_renamed input r then some input.name else r.name;
  guard_name = set_some input.guard_name r.guard_name;
  status = set_some input.status r.status;
  desc = set_some input.desc r.desc;
  updated_by = some actor;
}

module _ (db : Database) where
  unfoldable pub find_by_id : Bytes → Effect db.State Roles
  find_by_id = find_by_primary_key db from_row roles (not_found_error "Role not found.")

  unfoldable pub create : Bytes → RoleCreateInput → Bytes → Effect db.State Roles
  create uuid input actor = do
    existing ← find_by db from_row roles Schema.name input.name
    throw_if (not (null existing)) (conflict_error "Role name already in use.")
    Mapper.insert db roles insert_columns (output_args (created uuid input actor))
    link_all db roles_permissions (value_of (created uuid input actor).id) input.permission_ids
    pure (created uuid input actor)

  -- The name is looked up only if it changes.
  abbrev pub refuse_taken : Bool → Bytes → Effect db.State (Unit {0})
  refuse_taken renamed name =
      if renamed
      then (do
        dupe ← find_by db from_row roles Schema.name name
        throw_if (not (null dupe)) (conflict_error "Role name already in use."))
      else pure tt

  unfoldable pub update : Bytes → RoleUpdateInput → Bytes → Effect db.State Roles
  unfolding find_by_id
  update i input actor = do
    r ← find_by_id i
    refuse_taken (is_renamed input r) input.name
    Mapper.update db roles (update_columns (edited input actor r))
        (update_args (edited input actor r)) (value_of r.id)
    replace_links db roles_permissions i input.permission_ids
    pure (edited input actor r)

  unfoldable pub remove : Bytes → Effect db.State (Unit {0})
  unfolding find_by_id
  remove i = do _ ← find_by_id i; writes (db.delete_by_primary_key roles i)

  unfoldable pub permissions_of : Bytes → Effect db.State (List Permissions)
  permissions_of i =
      reads (λ s. Option.map (map Permissions.from_row) (db.query (permissions_of_role i) s))

  unfoldable pub assign_permission : Bytes → Bytes → Effect db.State (Unit {0})
  assign_permission role permission = exec db (insert_or_ignore roles_permissions role permission)

  unfoldable pub unassign_permission : Bytes → Bytes → Effect db.State (Unit {0})
  unassign_permission role permission = exec db (delete_link roles_permissions role permission)

  unfoldable pub assign_permissions : Bytes → List Bytes → Effect db.State (Unit {0})
  assign_permissions role ids = link_all db roles_permissions role ids

  unfoldable pub unassign_permissions : Bytes → List Bytes → Effect db.State (Unit {0})
  unassign_permissions role ids = unlink_each db roles_permissions role ids
