-- ===== src/Models/Settings.antt =====
-- models/Settings.h, models/Settings.cc: a row of the table `settings` as an object, and the columns and arguments that it
-- hands to the mapper. A null pointer is `none`.
pub mod Laws
use cppadmin.Base.{Bytes, List, [], ◌∷◌, Option, none}
use mathlib.Core.Option
use cppadmin.Database.Schema.{
  Column, Value, text, Row, id, initial, name, description, icon, logo, favicon, login_image, phone,
  address, email, copyright, theme, fe_template, created_by, updated_by,
}
use cppadmin.Models.Field.{text_of, column_if, value_if, field_if}

pub record Settings : Type 0 where
  pub id : Option Bytes
  pub initial : Option Bytes
  pub name : Option Bytes
  pub description : Option Bytes
  pub icon : Option Bytes
  pub logo : Option Bytes
  pub favicon : Option Bytes
  pub login_image : Option Bytes
  pub phone : Option Bytes
  pub address : Option Bytes
  pub email : Option Bytes
  pub copyright : Option Bytes
  pub theme : Option Bytes
  pub fe_template : Option Bytes
  pub created_by : Option Bytes
  pub updated_by : Option Bytes

-- `Settings x;`
abbrev pub empty : Settings
empty = record {
  id = none;
  initial = none;
  name = none;
  description = none;
  icon = none;
  logo = none;
  favicon = none;
  login_image = none;
  phone = none;
  address = none;
  email = none;
  copyright = none;
  theme = none;
  fe_template = none;
  created_by = none;
  updated_by = none;
}

unfoldable pub from_row : Row → Settings
from_row r = record {
  id = text_of (r id);
  initial = text_of (r initial);
  name = text_of (r name);
  description = text_of (r description);
  icon = text_of (r icon);
  logo = text_of (r logo);
  favicon = text_of (r favicon);
  login_image = text_of (r login_image);
  phone = text_of (r phone);
  address = text_of (r address);
  email = text_of (r email);
  copyright = text_of (r copyright);
  theme = text_of (r theme);
  fe_template = text_of (r fe_template);
  created_by = text_of (r created_by);
  updated_by = text_of (r updated_by);
}

abbrev pub insert_columns : List Column
insert_columns =
    id ∷ initial ∷ name ∷ description ∷ icon ∷ logo ∷ favicon ∷ login_image ∷ phone ∷ address
    ∷ email ∷ copyright ∷ theme ∷ fe_template ∷ created_by ∷ updated_by ∷ []

unfoldable pub output_args : Settings → List (Option Value)
output_args u =
    Option.map text u.id
    ∷ Option.map text u.initial
    ∷ Option.map text u.name
    ∷ Option.map text u.description
    ∷ Option.map text u.icon
    ∷ Option.map text u.logo
    ∷ Option.map text u.favicon
    ∷ Option.map text u.login_image
    ∷ Option.map text u.phone
    ∷ Option.map text u.address
    ∷ Option.map text u.email
    ∷ Option.map text u.copyright
    ∷ Option.map text u.theme
    ∷ Option.map text u.fe_template
    ∷ Option.map text u.created_by
    ∷ Option.map text u.updated_by
    ∷ []

unfoldable pub update_columns : Settings → List Column
update_columns u =
    (column_if u.initial initial (
      column_if u.name name (
        column_if u.description description (
          column_if u.icon icon (
            column_if u.logo logo (
              column_if u.favicon favicon (
                column_if u.login_image login_image (
                  column_if u.phone phone (
                    column_if u.address address (
                      column_if u.email email (
                        column_if u.copyright copyright (
                          column_if u.theme theme (
                            column_if u.fe_template fe_template
                              (column_if u.updated_by updated_by []))))))))))))))

unfoldable pub update_args : Settings → List Value
update_args u =
    (value_if text u.initial (
      value_if text u.name (
        value_if text u.description (
          value_if text u.icon (
            value_if text u.logo (
              value_if text u.favicon (
                value_if text u.login_image (
                  value_if text u.phone (
                    value_if text u.address (
                      value_if text u.email (
                        value_if text u.copyright (
                          value_if text u.theme (
                            value_if text u.fe_template (value_if text u.updated_by []))))))))))))))

unfoldable pub to_json : Settings → List (Bytes × Value)
to_json u =
    (field_if text u.id "id" (
      field_if text u.initial "initial" (
        field_if text u.name "name" (
          field_if text u.description "description" (
            field_if text u.icon "icon" (
              field_if text u.logo "logo" (
                field_if text u.favicon "favicon" (
                  field_if text u.login_image "login_image" (
                    field_if text u.phone "phone" (
                      field_if text u.address "address" (
                        field_if text u.email "email" (
                          field_if text u.copyright "copyright" (
                            field_if text u.theme "theme"
                              (field_if text u.fe_template "fe_template" []))))))))))))))
