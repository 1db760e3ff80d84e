-- ===== src/Services/Tests.antt =====
-- Users, roles and permissions in memory, updated and linked.
use cppadmin.Base.{
  ◌≡◌, refl, Bytes, bytes, bytes_beq, true, false, contains, bytes_eq, ◌&&◌, ◌||◌, [], ◌∷◌, none,
  some, if◌then◌else◌,
}
use cppadmin.Error.{app}
use cppadmin.Error.Effect.{ok, err, for_each}
use cppadmin.Database.Schema.{
  Table, LinkTable, Row, users, permissions, users_roles, roles_permissions, assign, column_beq,
  link_beq,
}
use cppadmin.Database.Memory.{Memory, memory, empty_memory, lookup, Rows}
use cppadmin.Database.Memory.Relational.{memory_laws}
use cppadmin.Models.Users.{Users, from_row, output_args}
use cppadmin.Models.Users.Laws.{merge}
use cppadmin.Models.Users
use cppadmin.Models.Permissions.{Permissions}
use cppadmin.Models.Permissions
use cppadmin.Services.Bcrypt.{marking}
use cppadmin.Services.UserRows.{row_of}
use cppadmin.Services.Users.{UserUpdateInput, edited, find_by_id, update}
use cppadmin.Services.Users.Edited.{IsUpdated}
use cppadmin.Services.Users.Laws.{update_sound, update-RefusesCleanly}
use cppadmin.Services.Roles.{assign_permissions, unassign_permissions}
use cppadmin.Services.Roles.Laws.{assign_permissions_sound}
use cppadmin.Services.Permissions.{PermissionInput}
use cppadmin.Services.Permissions as Service

abbrev carol : Users
carol = record Users.empty { id = some (1 ∷ []); blocked = some true }

abbrev reading : Permissions
reading = record Permissions.empty { id = some (1 ∷ []); name = some (5 ∷ []) }

abbrev some_rows : Table → Rows
some_rows users = (1 ∷ [], row_of carol) ∷ []
some_rows permissions =
    (1 ∷ [], assign Permissions.insert_columns (Permissions.output_args reading) (λ k. none)) ∷ []
some_rows _ = []

abbrev state : Memory
state = record empty_memory { rows = some_rows }

abbrev input : UserUpdateInput
input = record {
  name = 8 ∷ [];
  phone = [];
  status = [];
  timezone = [];
  picture = [];
  blocked = false;
  blocked_reason = [];
  role_ids = (3 ∷ []) ∷ [];
}

abbrev changed : Users
changed = edited input (9 ∷ []) carol

updated : (update memory marking (1 ∷ []) input (9 ∷ []) state).0 ≡ ok changed
unfolding update find_by_id lookup bytes_beq assign output_args column_beq from_row for_each edited
updated = refl

update_sound_example :
    ((row : Row) × (row' : Row) × (memory_laws.stored state users (1 ∷ []) ≡ some row)
      × (changed ≡ edited input (9 ∷ []) (from_row row))
      × (memory_laws.stored (update memory marking (1 ∷ []) input (9 ∷ []) state).1 users (1 ∷ [])
          ≡ some row')
      × (from_row row' ≡ merge changed (from_row row))
      × IsUpdated input (9 ∷ []) (from_row row) (from_row row'))
    × ((l : LinkTable) (x y : Bytes)
        → memory_laws.linked (update memory marking (1 ∷ []) input (9 ∷ []) state).1 l x y ≡ (
            if link_beq users_roles l && bytes_beq (1 ∷ []) x
            then contains ((3 ∷ []) ∷ []) y
            else memory_laws.linked state l x y))
update_sound_example =
    update_sound memory marking memory_laws (1 ∷ []) input (9 ∷ []) state changed updated

missing :
    (update memory marking (2 ∷ []) input (9 ∷ []) state).0
    ≡ err (app (bytes "User not found.") 404)
unfolding update find_by_id lookup bytes_beq
missing = refl

update-RefusesCleanly_example : (update memory marking (2 ∷ []) input (9 ∷ []) state).1 ≡ state
update-RefusesCleanly_example =
    update-RefusesCleanly memory marking (2 ∷ []) input (9 ∷ []) state (bytes "User not found.") 404
      missing

assigned : (assign_permissions memory (6 ∷ []) ((7 ∷ []) ∷ []) state).0 ≡ ok tt
unfolding assign_permissions for_each
assigned = refl

assign_permissions_example :
    memory_laws.linked
      (assign_permissions memory (6 ∷ []) ((7 ∷ []) ∷ []) state).1
      roles_permissions
      (6 ∷ [])
      (7 ∷ [])
    ≡ (contains {A = Bytes} ((7 ∷ []) ∷ []) (7 ∷ [])
        || memory_laws.linked state roles_permissions (6 ∷ []) (7 ∷ []))
unfolding bytes_beq
assign_permissions_example =
    assign_permissions_sound memory memory_laws (6 ∷ []) ((7 ∷ []) ∷ []) state assigned
      roles_permissions (6 ∷ []) (7 ∷ [])

unassigned : (unassign_permissions memory (6 ∷ []) ((7 ∷ []) ∷ []) state).0 ≡ ok tt
unfolding unassign_permissions for_each
unassigned = refl

abbrev new_name : PermissionInput
new_name = record { name = 8 ∷ []; guard_name = []; method = []; status = []; desc = [] }

abbrev renamed : Permissions
renamed = Service.edited new_name (9 ∷ []) reading

saved : (Service.update memory (1 ∷ []) new_name (9 ∷ []) state).0 ≡ ok renamed
unfolding Service.update Service.find_by_id lookup bytes_beq assign Permissions.output_args
    column_beq Permissions.from_row Service.edited
saved = refl
