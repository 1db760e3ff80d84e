-- ===== src/Services/Users.antt =====
-- services/UserService.cc.
pub mod Edited
pub mod Laws
use cppadmin.Base.{
  Bytes, bytes, Bool, ◌&&◌, not, List, Option, none, some, map, null, is_empty, if◌then◌else◌,
}
use cppadmin.Error.{Error, not_found_error, conflict_error, validation_error}
use cppadmin.Error.Effect.{Effect, pure, throw_if, reads, writes, ◌>>=◌, ◌>>◌}
use cppadmin.Database.{Database}
use cppadmin.Database.Schema.{users, users_roles, roles_of_user, set_password}
use cppadmin.Database.Schema
use cppadmin.Models.Field.{value_of}
use cppadmin.Models.Users.{Users, empty, from_row}
use cppadmin.Models.Roles.{Roles}
use cppadmin.Models.Roles
use cppadmin.Services.Bcrypt.{Bcrypt, default_rounds}
use cppadmin.Services.Mapper.{find_by, find_by_primary_key, exec, link_all, replace_links}
use cppadmin.Services.UserRows.{insert_user, update_user}
use mathlib.Core.Option

pub record UserCreateInput : Type 0 where
  pub code : Bytes
  pub name : Bytes
  pub email : Bytes
  pub phone : Bytes
  pub password : Bytes
  pub status : Bytes
  pub timezone : Bytes
  pub picture : Bytes
  pub blocked : Bool
  pub blocked_reason : Bytes
  pub role_ids : List Bytes

pub record UserUpdateInput : Type 0 where
  pub name : Bytes
  pub phone : Bytes
  pub status : Bytes
  pub timezone : Bytes
  pub picture : Bytes
  pub blocked : Bool
  pub blocked_reason : Bytes
  pub role_ids : List Bytes

pub record ProfileUpdateInput : Type 0 where
  pub code : Bytes
  pub name : Bytes
  pub email : Bytes
  pub phone : Bytes
  pub timezone : Bytes
  pub status : Bytes
  pub password : Bytes
  pub picture : Bytes

-- v.empty() ? fallback : v
abbrev pub or_default : Bytes → Bytes → Bytes
or_default v fallback = if is_empty v then fallback else v

-- `if (!v.empty()) u.setX(v);`
abbrev pub set_some : Bytes → Option Bytes → Option Bytes
set_some v old = if is_empty v then old else some v

-- if (input.blocked && !input.blockedReason.empty()) u.setBlockedReason(input.blockedReason);
abbrev pub reason : Bool → Bytes → Option Bytes → Option Bytes
reason blocked v old = if blocked && not (is_empty v) then some v else old

-- The object that `create` inserts.
unfoldable pub created : Bcrypt → Bytes → Bytes → UserCreateInput → Bytes → Users
created bc uuid salt input actor = record empty {
  id = some uuid;
  code = some input.code;
  name = some input.name;
  email = some input.email;
  phone = some input.phone;
  password = some (bc.hash default_rounds salt input.password);
  status = some (or_default input.status (bytes "Active"));
  timezone = some (or_default input.timezone (bytes "UTC"));
  picture = set_some input.picture none;
  blocked = some input.blocked;
  blocked_reason = reason input.blocked input.blocked_reason none;
  created_by = some actor;
  updated_by = some actor;
}

-- The object that `update` saves.
unfoldable pub edited : UserUpdateInput → Bytes → Users → Users
edited input actor u = record u {
  name = set_some input.name u.name;
  phone = set_some input.phone u.phone;
  status = set_some input.status u.status;
  timezone = set_some input.timezone u.timezone;
  picture = set_some input.picture u.picture;
  blocked = some input.blocked;
  blocked_reason = reason input.blocked input.blocked_reason u.blocked_reason;
  updated_by = some actor;
}

-- if (!input.password.empty()) u.setPassword(bcrypt::hash(input.password));
abbrev pub new_password : Bcrypt → Bytes → Bytes → Option Bytes → Option Bytes
new_password bc salt v old = if is_empty v then old else some (bc.hash default_rounds salt v)

-- The object that `updateProfile` saves.
unfoldable pub profiled : Bcrypt → Bytes → ProfileUpdateInput → Bytes → Users → Users
profiled bc salt input i u = record u {
  code = set_some input.code u.code;
  name = set_some input.name u.name;
  email = set_some input.email u.email;
  phone = set_some input.phone u.phone;
  timezone = set_some input.timezone u.timezone;
  status = set_some input.status u.status;
  password = new_password bc salt input.password u.password;
  picture = set_some input.picture u.picture;
  updated_by = some i;
}

module _ (db : Database) (bc : Bcrypt) where
  unfoldable pub find_by_id : Bytes → Effect db.State Users
  find_by_id = find_by_primary_key db from_row users (not_found_error "User not found.")

  unfoldable pub create : Bytes → Bytes → UserCreateInput → Bytes → Effect db.State Users
  unfolding created
  create uuid salt input actor = do
    existing ← find_by db from_row users Schema.email input.email
    throw_if (not (null existing)) (conflict_error "Email already in use.")
    existing_code ← find_by db from_row users Schema.code input.code
    throw_if (not (null existing_code)) (conflict_error "User code already in use.")
    insert_user db (created bc uuid salt input actor)
    link_all db users_roles (value_of (created bc uuid salt input actor).id) input.role_ids
    pure (created bc uuid salt input actor)

  unfoldable pub update : Bytes → UserUpdateInput → Bytes → Effect db.State Users
  unfolding find_by_id
  update i input actor = do
    u ← find_by_id i
    update_user db (edited input actor u)
    replace_links db users_roles i input.role_ids
    pure (edited input actor u)

  unfoldable pub update_profile : Bytes → Bytes → ProfileUpdateInput → Effect db.State Users
  unfolding find_by_id
  update_profile salt i input = do
    u ← find_by_id i
    update_user db (profiled bc salt input i u)
    pure (profiled bc salt input i u)

  unfoldable pub remove : Bytes → Effect db.State (Unit {0})
  unfolding find_by_id
  remove i = do _ ← find_by_id i; writes (db.delete_by_primary_key users i)

  unfoldable pub roles_of : Bytes → Effect db.State (List Roles)
  roles_of i = reads (λ s. Option.map (map Roles.from_row) (db.query (roles_of_user i) s))

  unfoldable pub change_password : Bytes → Bytes → Bytes → Bytes → Effect db.State (Unit {0})
  unfolding find_by_id
  change_password salt i current_password new_password = do
    u ← find_by_id i
    throw_if (not (bc.verify current_password (value_of u.password)))
        (validation_error "Current password is incorrect.")
    exec db (set_password (bc.hash default_rounds salt new_password) i)
