-- ===== src/Models/Permissions.antt =====
-- models/Permissions.h, models/Permissions.cc: a row of the table `permissions` as an object, and the columns and arguments that it
-- hands to the mapper. A null pointer is `none`.
pub mod Laws
use cppadmin.Base.{Bytes, List, [], ◌∷◌, Option, none}
use mathlib.Core.Option
use cppadmin.Database.Schema.{
  Column, Value, text, Row, id, name, guard_name, method, status, desc, created_by, updated_by,
}
use cppadmin.Models.Field.{text_of, column_if, value_if, field_if}

pub record Permissions : Type 0 where
  pub id : Option Bytes
  pub name : Option Bytes
  pub guard_name : Option Bytes
  pub method : Option Bytes
  pub status : Option Bytes
  pub desc : Option Bytes
  pub created_by : Option Bytes
  pub updated_by : Option Bytes

-- `Permissions x;`
abbrev pub empty : Permissions
empty = record {
  id = none;
  name = none;
  guard_name = none;
  method = none;
  status = none;
  desc = none;
  created_by = none;
  updated_by = none;
}

unfoldable pub from_row : Row → Permissions
from_row r = record {
  id = text_of (r id);
  name = text_of (r name);
  guard_name = text_of (r guard_name);
  method = text_of (r method);
  status = text_of (r status);
  desc = text_of (r desc);
  created_by = text_of (r created_by);
  updated_by = text_of (r updated_by);
}

abbrev pub insert_columns : List Column
insert_columns = id ∷ name ∷ guard_name ∷ method ∷ status ∷ desc ∷ created_by ∷ updated_by ∷ []

unfoldable pub output_args : Permissions → List (Option Value)
output_args u =
    Option.map text u.id
    ∷ Option.map text u.name
    ∷ Option.map text u.guard_name
    ∷ Option.map text u.method
    ∷ Option.map text u.status
    ∷ Option.map text u.desc
    ∷ Option.map text u.created_by
    ∷ Option.map text u.updated_by
    ∷ []

unfoldable pub update_columns : Permissions → List Column
update_columns u =
    (column_if u.name name (
      column_if u.guard_name guard_name (
        column_if u.method method (
          column_if u.status status
            (column_if u.desc desc (column_if u.updated_by updated_by []))))))

unfoldable pub update_args : Permissions → List Value
update_args u =
    (value_if text u.name (
      value_if text u.guard_name (
        value_if text u.method
          (value_if text u.status (value_if text u.desc (value_if text u.updated_by []))))))

unfoldable pub to_json : Permissions → List (Bytes × Value)
to_json u =
    (field_if text u.id "id" (
      field_if text u.name "name" (
        field_if text u.guard_name "guard_name" (
          field_if text u.method "method"
            (field_if text u.status "status" (field_if text u.desc "desc" []))))))
