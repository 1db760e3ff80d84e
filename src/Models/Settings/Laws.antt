-- ===== src/Models/Settings/Laws.antt =====
-- What the mapper stores of an object of the class `Settings`, and what is read back.
use cppadmin.Base.{some, map, ◌≡◌, refl, false}
use cppadmin.Database.Schema.{Row, column_beq, assign, has_column, empty_row, id}
use cppadmin.Models.Field.{or_else, of_map, assign-column_if, of_or_value, has_column-column_if}
use cppadmin.Models.Settings.{
  Settings, from_row, insert_columns, output_args, update_columns, update_args,
}

-- An object that is inserted and read back is the same object.
pub settings_from_row-insert :
    (u : Settings) → from_row (assign insert_columns (output_args u) empty_row) ≡ u
unfolding from_row output_args assign column_beq
settings_from_row-insert u = simp of_map

-- The object that an update leaves: the pointers that are not null win, except for `created_by`.
abbrev pub merge : Settings → Settings → Settings
merge u old = record {
  id = old.id;
  initial = or_else u.initial old.initial;
  name = or_else u.name old.name;
  description = or_else u.description old.description;
  icon = or_else u.icon old.icon;
  logo = or_else u.logo old.logo;
  favicon = or_else u.favicon old.favicon;
  login_image = or_else u.login_image old.login_image;
  phone = or_else u.phone old.phone;
  address = or_else u.address old.address;
  email = or_else u.email old.email;
  copyright = or_else u.copyright old.copyright;
  theme = or_else u.theme old.theme;
  fe_template = or_else u.fe_template old.fe_template;
  created_by = old.created_by;
  updated_by = or_else u.updated_by old.updated_by;
}

-- An update overwrites the columns whose pointers are not null and keeps all others, so that a
-- pointer that was reset to null leaves the stored value in place.
pub settings_from_row-update :
    (u : Settings) (r : Row)
    → from_row (assign (update_columns u) (map some (update_args u)) r) ≡ merge u (from_row r)
unfolding from_row update_columns update_args column_beq
settings_from_row-update u r = simp (assign-column_if, of_or_value) (unfold assign in refl)

pub has_column-update_columns : (u : Settings) → has_column id (update_columns u) ≡ false
unfolding update_columns column_beq has_column
has_column-update_columns u = simp has_column-column_if
