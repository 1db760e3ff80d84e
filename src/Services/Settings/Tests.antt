-- ===== src/Services/Settings/Tests.antt =====
-- A settings row in memory, read through the cache and updated.
use cppadmin.Base.{
  arith, ◌≤◌, ◌+◌, ◌<◌, ◌≡◌, ◌⊎◌, refl, Bytes, bytes_beq, Bool, true, List, [], ◌∷◌, Option, none,
  some,
}
use cppadmin.Error.{Error}
use cppadmin.Error.Effect.{ok}
use cppadmin.Database.Schema.{Table, Row, settings, assign, column_beq, is_text, empty_row}
use cppadmin.Database.Memory.{Memory, memory, empty_memory, Rows, select, lookup, modify}
use cppadmin.Models.Settings.{
  Settings, empty, from_row, insert_columns, output_args, update_columns, update_args,
}
use cppadmin.Services.Settings.{
  SettingUpdateInput, State, find_first, update, edited, check_template, invalidate,
}
use cppadmin.Services.Settings.Age.{Held, start, read_at, find_first-Run}
use cppadmin.Services.Settings.Laws.{IsStored, update-find_first}

abbrev site : Settings
site = record empty { id = some (1 ∷ []); name = some (2 ∷ []) }

abbrev site_row : Row
site_row = assign insert_columns (output_args site) empty_row

abbrev site_rows : Table → Rows
site_rows settings = (1 ∷ [], site_row) ∷ []
site_rows _ = []

abbrev rows : Memory
rows = record empty_memory { rows = site_rows }

abbrev first_row : Memory → Option (List Row)
first_row m = some (select (λ r. true) (m.rows settings) (m.rows settings))

abbrev any_slug : Bytes → Bool
any_slug slug = true

abbrev no_download : Bytes → Option Error
no_download slug = none

abbrev state : State memory first_row any_slug no_download
state = record { database = rows; cache = none; cache_at = 0 }

read : (find_first memory first_row any_slug no_download 5 state).0 ≡ ok site
unfolding find_first select lookup bytes_beq from_row assign output_args column_beq
read = refl

-- Read at the start, from the cache six seconds later.
abbrev after_read : State memory first_row any_slug no_download
after_read = (find_first memory first_row any_slug no_download 5 state).1

from_cache : (find_first memory first_row any_slug no_download 11 after_read).0 ≡ ok site
unfolding find_first select lookup bytes_beq from_row assign output_args column_beq
from_cache = refl

find_first-Run_example :
    (IsStored memory first_row any_slug no_download site after_read.database
      × (find_first memory first_row any_slug no_download 20
            (record (find_first memory first_row any_slug no_download 11 after_read).1 {
              database = rows;
            })
          ≡ (
            ok site,
            record (find_first memory first_row any_slug no_download 11 after_read).1 {
              database = rows;
            },
          )))
    ⊎ Held memory first_row any_slug no_download site
        (λ t. (t ≤ 11) × (11 < t + 60))
        ((5, rows) ∷ [])
find_first-Run_example =
    find_first-Run memory first_row any_slug no_download 5 11 20 ((5, rows) ∷ []) after_read site
      rows (read_at (start rows) 5 (omega arith)) (omega arith) (omega arith) from_cache

abbrev input : SettingUpdateInput
input = record {
  name = 8 ∷ [];
  description = [];
  icon = [];
  logo = [];
  favicon = [];
  login_image = [];
  phone = [];
  address = [];
  email = [];
  copyright = [];
  theme = [];
  fe_template = [];
}

updated :
    (update memory first_row any_slug no_download (1 ∷ []) input (9 ∷ []) state).0
    ≡ ok (edited input (9 ∷ []) site)
unfolding update select lookup bytes_beq is_text assign output_args column_beq from_row edited
    check_template
updated = refl

read_again :
    (find_first memory first_row any_slug no_download 6
      (update memory first_row any_slug no_download (1 ∷ []) input (9 ∷ []) state).1).0
    ≡ ok (edited input (9 ∷ []) site)
unfolding update select lookup bytes_beq is_text assign output_args column_beq from_row edited
    check_template find_first invalidate modify update_columns update_args
read_again = refl

update-find_first_example :
    IsStored memory first_row any_slug no_download
      (edited input (9 ∷ []) site)
      (update memory first_row any_slug no_download (1 ∷ []) input (9 ∷ []) state).1.database
update-find_first_example =
    update-find_first memory first_row any_slug no_download (1 ∷ []) input (9 ∷ []) state
      (edited input (9 ∷ []) site) (edited input (9 ∷ []) site) 6 updated read_again
