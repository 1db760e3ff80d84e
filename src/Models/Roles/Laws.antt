-- ===== src/Models/Roles/Laws.antt =====
-- What the mapper stores of an object of the class `Roles`, and what is read back.
use cppadmin.Base.{some, map, ◌≡◌, refl, false}
use cppadmin.Database.Schema.{Row, column_beq, assign, has_column, empty_row, id}
use cppadmin.Models.Field.{or_else, of_map, assign-column_if, of_or_value, has_column-column_if}
use cppadmin.Models.Roles.{
  Roles, from_row, insert_columns, output_args, update_columns, update_args,
}

-- An object that is inserted and read back is the same object.
pub roles_from_row-insert :
    (u : Roles) → from_row (assign insert_columns (output_args u) empty_row) ≡ u
unfolding from_row output_args assign column_beq
roles_from_row-insert u = simp of_map

-- The object that an update leaves: the pointers that are not null win, except for `created_by`.
abbrev pub merge : Roles → Roles → Roles
merge u old = record {
  id = old.id;
  name = or_else u.name old.name;
  guard_name = or_else u.guard_name old.guard_name;
  status = or_else u.status old.status;
  desc = or_else u.desc old.desc;
  created_by = old.created_by;
  updated_by = or_else u.updated_by old.updated_by;
}

-- An update overwrites the columns whose pointers are not null and keeps all others, so that a
-- pointer that was reset to null leaves the stored value in place.
pub roles_from_row-update :
    (u : Roles) (r : Row)
    → from_row (assign (update_columns u) (map some (update_args u)) r) ≡ merge u (from_row r)
unfolding from_row update_columns update_args column_beq
roles_from_row-update u r = simp (assign-column_if, of_or_value) (unfold assign in refl)

pub has_column-update_columns : (u : Roles) → has_column id (update_columns u) ≡ false
unfolding update_columns column_beq has_column
has_column-update_columns u = simp has_column-column_if
