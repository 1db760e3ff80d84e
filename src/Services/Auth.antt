-- ===== src/Services/Auth.antt =====
-- services/AuthService.cc.
pub mod Otp
pub mod Login
pub mod Registration
pub mod Reset
mod Tests
use cppadmin.Base.{
  ℕ, ◌+◌, ◌*◌, Bytes, bytes, Bool, true, false, ◌||◌, not, List, [], ◌∷◌, ◌++◌, Option, none, some,
  map, null, take, ltb, is_empty, ◌==◌, bytes_eq, if◌then◌else◌,
}
use mathlib.Core.Option
use cppadmin.Error.{
  Error, other, not_found_error, conflict_error, validation_error, unauthorized_error,
}
use cppadmin.Error.Effect.{Effect, Result, ok, err, pure, throw, throw_if, ◌>>=◌, ◌>>◌}
use cppadmin.Database.{Database}
use cppadmin.Database.Schema.{users}
use cppadmin.Database.Schema
use cppadmin.Models.Users.{
  Users, empty, from_row, insert_columns, output_args, update_columns, update_args,
}
use cppadmin.Models.Field.{value_of, flag_value_of}
use cppadmin.Jwt.Library.{Library, Object, text, number}
use cppadmin.Jwt.Token.{sign}
use cppadmin.Services.Bcrypt.{Bcrypt, default_rounds}
use cppadmin.Services.Mapper.{find_by, find_by_primary_key, insert, update}
use cppadmin.Services.UserRows.{update_user}
use cppadmin.Services.Auth.Otp.{generate_otp}

pub record LoginResult : Type 0 where
  pub user : Users
  pub jwt_token : Bytes

pub record RegisterInput : Type 0 where
  pub name : Bytes
  pub email : Bytes
  pub password : Bytes
  pub phone : Bytes

pub record ResetProcessInput : Type 0 where
  pub email : Bytes
  pub otp : Bytes
  pub new_password : Bytes

-- What the service reads of `AppConfig`: `jwtSecret`, `jwtExpireSeconds()`, `otpExpiryMinutes`
-- and `bcryptRounds`.
pub record Config : Type 0 where
  pub jwt_secret : Bytes
  pub jwt_expire_seconds : ℕ
  pub otp_expiry_minutes : ℕ
  pub bcrypt_rounds : ℕ

module _ (lib : Library) (cfg : Config) where
  unfoldable pub claims : Bytes → Bytes → ℕ → Object
  claims user_id email now =
      (bytes "sub", text user_id)
      ∷ (bytes "email", text email)
      ∷ (bytes "iat", number now)
      ∷ (bytes "exp", number (now + cfg.jwt_expire_seconds))
      ∷ []

  unfoldable pub issue_jwt : Bytes → Bytes → ℕ → Bytes
  issue_jwt user_id email now = sign lib (claims user_id email now) cfg.jwt_secret

module _ (db : Database) (bc : Bcrypt) (lib : Library) (cfg : Config) where
  -- What follows once the first row with the email is read.
  unfoldable pub admit : Bytes → ℕ → Users → Effect db.State LoginResult
  admit password now u = do
    throw_if (not (bc.verify password (value_of u.password)))
        (unauthorized_error "Wrong email or password.")
    throw_if (not (value_of u.status == bytes "Active"))
        (unauthorized_error "Account is inactive or blocked.")
    throw_if (flag_value_of u.blocked) (unauthorized_error "Account is blocked.")
    pure (record { user = u; jwt_token = issue_jwt lib cfg (value_of u.id) (value_of u.email) now })

  abbrev pub admit_first : Bytes → ℕ → Option (List Users) → Effect db.State LoginResult
  admit_first password now none = throw (unauthorized_error "Wrong email or password.")
  admit_first password now (some []) = throw (unauthorized_error "Wrong email or password.")
  admit_first password now (some (u ∷ rows)) = admit password now u

  -- An exception of `findBy` is caught and leaves no rows.
  unfoldable pub login : Bytes → Bytes → ℕ → Effect db.State LoginResult
  login email password now s =
      admit_first password now (Option.map (map from_row) (db.find_by users Schema.email email s)) s

module _ (db : Database) (bc : Bcrypt) where
  -- The object that `registerUser` inserts, from two new UUIDs and the salt of the hash.
  unfoldable pub registered : Bytes → Bytes → Bytes → RegisterInput → Users
  registered uuid code_uuid salt input = record empty {
    id = some uuid;
    code = some (bytes "USR-" ++ take 8 code_uuid);
    name = some input.name;
    email = some input.email;
    phone = some input.phone;
    password = some (bc.hash default_rounds salt input.password);
    status = some (bytes "active");
    timezone = some (bytes "UTC");
    blocked = some false;
    created_by = some (bytes "system");
    updated_by = some (bytes "system");
  }

  unfoldable pub register_user : Bytes → Bytes → Bytes → RegisterInput → Effect db.State Users
  register_user uuid code_uuid salt input = do
    existing ← find_by db from_row users Schema.email input.email
    throw_if (not (null existing)) (conflict_error "Email already exists.")
    insert db users insert_columns (output_args (registered uuid code_uuid salt input))
    pure (registered uuid code_uuid salt input)

module _ (db : Database) (bc : Bcrypt) (cfg : Config) where
  -- The object that `requestPasswordReset` updates the row with.
  unfoldable pub with_otp : Bytes → Bytes → ℕ → Users → Users
  with_otp salt otp now u = record u {
    password_otp = some (bc.hash cfg.bcrypt_rounds salt otp);
    password_otp_expires = some (now + cfg.otp_expiry_minutes * 60);
    updated_by = some (bytes "system");
  }

  abbrev request_for : Bytes → ℕ → ℕ → List Users → Effect db.State (Unit {0})
  request_for salt rnd now [] = pure tt
  request_for salt rnd now (u ∷ rows) = update_user db (with_otp salt (generate_otp 6 rnd) now u)

  -- `rnd` is the random number of `generateOtp`.
  unfoldable pub request_password_reset : Bytes → ℕ → ℕ → Bytes → Effect db.State (Unit {0})
  request_password_reset salt rnd now email = do
    rows ← find_by db from_row users Schema.email email
    request_for salt rnd now rows

module _ (db : Database) (bc : Bcrypt) where
  -- !storedOtp || storedOtp->empty() || !bcrypt::verify(input.otp, *storedOtp)
  abbrev pub otp_refused : Option Bytes → Bytes → Bool
  otp_refused none otp = true
  otp_refused (some stored) otp = is_empty stored || not (bc.verify otp stored)

  -- !exp || *exp < now
  abbrev pub has_expired : Option ℕ → ℕ → Bool
  has_expired none now = true
  has_expired (some exp) now = ltb exp now

  -- The object that `processPasswordReset` updates the row with.
  unfoldable pub with_password : Bytes → Bytes → Users → Users
  with_password salt new_password u = record u {
    password = some (bc.hash default_rounds salt new_password);
    password_otp = none;
    password_otp_expires = none;
    updated_by = some (bytes "system");
  }

  abbrev process_for : Bytes → ℕ → ResetProcessInput → List Users → Effect db.State (Unit {0})
  process_for salt now input [] = throw (validation_error "Email not found.")
  process_for salt now input (u ∷ rows) = do
    throw_if (otp_refused u.password_otp input.otp) (validation_error "OTP is invalid.")
    throw_if (has_expired u.password_otp_expires now) (validation_error "OTP has expired.")
    update_user db (with_password salt input.new_password u)

  unfoldable pub process_password_reset : Bytes → ℕ → ResetProcessInput → Effect db.State (Unit {0})
  process_password_reset salt now input = do
    rows ← find_by db from_row users Schema.email input.email
    process_for salt now input rows

  unfoldable pub find_user : Bytes → Effect db.State Users
  find_user = find_by_primary_key db from_row users (not_found_error "User not found.")
