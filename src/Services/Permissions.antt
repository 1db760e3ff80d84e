-- ===== src/Services/Permissions.antt =====
-- services/PermissionService.cc.
pub mod Laws
use cppadmin.Base.{Bytes, bytes, Option, none, some}
use cppadmin.Error.{Error, not_found_error}
use cppadmin.Error.Effect.{Effect, pure, writes, ◌>>=◌, ◌>>◌}
use cppadmin.Database.{Database}
use cppadmin.Database.Schema.{permissions}
use cppadmin.Models.Field.{value_of}
use cppadmin.Models.Permissions.{
  Permissions, empty, from_row, insert_columns, output_args, update_columns, update_args,
}
use cppadmin.Services.Mapper.{find_by_primary_key}
use cppadmin.Services.Mapper
use cppadmin.Services.Users.{or_default, set_some}

-- `PermissionCreateInput` and `PermissionUpdateInput` have the same fields.
pub record PermissionInput : Type 0 where
  pub name : Bytes
  pub guard_name : Bytes
  pub method : Bytes
  pub status : Bytes
  pub desc : Bytes

-- The object that `create` inserts.
unfoldable pub created : Bytes → PermissionInput → Bytes → Permissions
created uuid input actor = record empty {
  id = some uuid;
  name = some input.name;
  guard_name = some (or_default input.guard_name (bytes "web"));
  method = some (or_default input.method (bytes "GET"));
  status = some (or_default input.status (bytes "Active"));
  desc = set_some input.desc none;
  created_by = some actor;
  updated_by = some actor;
}

-- The object that `update` saves.
unfoldable pub edited : PermissionInput → Bytes → Permissions → Permissions
edited input actor p = record p {
  name = set_some input.name p.name;
  guard_name = set_some input.guard_name p.guard_name;
  method = set_some input.method p.method;
  status = set_some input.status p.status;
  desc = set_some input.desc p.desc;
  updated_by = some actor;
}

module _ (db : Database) where
  -- mapper.update(p)
  abbrev pub save : Permissions → Effect db.State (Unit {0})
  save p = Mapper.update db permissions (update_columns p) (update_args p) (value_of p.id)

  unfoldable pub find_by_id : Bytes → Effect db.State Permissions
  find_by_id = find_by_primary_key db from_row permissions (not_found_error "Permission not found.")

  unfoldable pub create : Bytes → PermissionInput → Bytes → Effect db.State Permissions
  create uuid input actor = do
    Mapper.insert db permissions insert_columns (output_args (created uuid input actor))
    pure (created uuid input actor)

  unfoldable pub update : Bytes → PermissionInput → Bytes → Effect db.State Permissions
  unfolding find_by_id
  update i input actor = do
    p ← find_by_id i
    save (edited input actor p)
    pure (edited input actor p)

  unfoldable pub remove : Bytes → Effect db.State (Unit {0})
  unfolding find_by_id
  remove i = do _ ← find_by_id i; writes (db.delete_by_primary_key permissions i)
