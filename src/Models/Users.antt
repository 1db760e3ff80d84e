-- ===== src/Models/Users.antt =====
-- models/Users.h, models/Users.cc: a row of the table `users` as an object, and the columns and arguments that it
-- hands to the mapper. A null pointer is `none`.
pub mod Laws
use cppadmin.Base.{Bytes, List, [], ◌∷◌, Option, none, ℕ, Bool}
use mathlib.Core.Option
use cppadmin.Database.Schema.{
  Column, Value, flag, number, text, Row, id, code, name, phone, email, password, password_otp,
  password_otp_expires, status, picture, blocked, blocked_reason, timezone, created_by, updated_by,
}
use cppadmin.Models.Field.{flag_of, number_of, text_of, column_if, value_if, field_if}

pub record Users : Type 0 where
  pub id : Option Bytes
  pub code : Option Bytes
  pub name : Option Bytes
  pub phone : Option Bytes
  pub email : Option Bytes
  pub password : Option Bytes
  pub password_otp : Option Bytes
  pub password_otp_expires : Option ℕ
  pub status : Option Bytes
  pub picture : Option Bytes
  pub blocked : Option Bool
  pub blocked_reason : Option Bytes
  pub timezone : Option Bytes
  pub created_by : Option Bytes
  pub updated_by : Option Bytes

-- `Users x;`
abbrev pub empty : Users
empty = record {
  id = none;
  code = none;
  name = none;
  phone = none;
  email = none;
  password = none;
  password_otp = none;
  password_otp_expires = none;
  status = none;
  picture = none;
  blocked = none;
  blocked_reason = none;
  timezone = none;
  created_by = none;
  updated_by = none;
}

unfoldable pub from_row : Row → Users
from_row r = record {
  id = text_of (r id);
  code = text_of (r code);
  name = text_of (r name);
  phone = text_of (r phone);
  email = text_of (r email);
  password = text_of (r password);
  password_otp = text_of (r password_otp);
  password_otp_expires = number_of (r password_otp_expires);
  status = text_of (r status);
  picture = text_of (r picture);
  blocked = flag_of (r blocked);
  blocked_reason = text_of (r blocked_reason);
  timezone = text_of (r timezone);
  created_by = text_of (r created_by);
  updated_by = text_of (r updated_by);
}

abbrev pub insert_columns : List Column
insert_columns =
    id ∷ code ∷ name ∷ phone ∷ email ∷ password ∷ password_otp ∷ password_otp_expires ∷ status
    ∷ picture ∷ blocked ∷ blocked_reason ∷ timezone ∷ created_by ∷ updated_by ∷ []

unfoldable pub output_args : Users → List (Option Value)
output_args u =
    Option.map text u.id
    ∷ Option.map text u.code
    ∷ Option.map text u.name
    ∷ Option.map text u.phone
    ∷ Option.map text u.email
    ∷ Option.map text u.password
    ∷ Option.map text u.password_otp
    ∷ Option.map number u.password_otp_expires
    ∷ Option.map text u.status
    ∷ Option.map text u.picture
    ∷ Option.map flag u.blocked
    ∷ Option.map text u.blocked_reason
    ∷ Option.map text u.timezone
    ∷ Option.map text u.created_by
    ∷ Option.map text u.updated_by
    ∷ []

unfoldable pub update_columns : Users → List Column
update_columns u =
    (column_if u.code code (
      column_if u.name name (
        column_if u.phone phone (
          column_if u.email email (
            column_if u.password password (
              column_if u.password_otp password_otp (
                column_if u.password_otp_expires password_otp_expires (
                  column_if u.status status (
                    column_if u.picture picture (
                      column_if u.blocked blocked (
                        column_if u.blocked_reason blocked_reason (
                          column_if u.timezone timezone
                            (column_if u.updated_by updated_by [])))))))))))))

unfoldable pub update_args : Users → List Value
update_args u =
    (value_if text u.code (
      value_if text u.name (
        value_if text u.phone (
          value_if text u.email (
            value_if text u.password (
              value_if text u.password_otp (
                value_if number u.password_otp_expires (
                  value_if text u.status (
                    value_if text u.picture (
                      value_if flag u.blocked (
                        value_if text u.blocked_reason
                          (value_if text u.timezone (value_if text u.updated_by [])))))))))))))

unfoldable pub to_json : Users → List (Bytes × Value)
to_json u =
    (field_if text u.id "id" (
      field_if text u.code "code" (
        field_if text u.name "name" (
          field_if text u.phone "phone" (
            field_if text u.email "email" (
              field_if text u.status "status" (
                field_if text u.picture "picture" (
                  field_if flag u.blocked "blocked" (field_if text u.timezone "timezone" [])))))))))
