-- ===== src/Database/Memory.antt =====
-- A database in memory: tables and links as association lists. The examples run on it.
pub mod Lookup
pub mod Selection
pub mod Relational
use cppadmin.Base.{
  Bytes, bytes, Bool, true, false, List, [], ◌∷◌, ◌++◌, Option, none, some, ◌&&◌, bytes_beq, map,
  if◌then◌else◌,
}
use mathlib.Core.Option
use cppadmin.Database.Schema.{
  Table, users, roles, permissions, LinkTable, users_roles, roles_permissions, Column, id, name,
  status, Query, Value, text, Row, Statement, insert_or_ignore, delete_links, delete_link,
  set_password, administrator_membership, active_permission, roles_of_user, permissions_of_role,
  table_beq, link_beq, column_beq, empty_row, assign, is_text, password,
}
use cppadmin.Database.{Database, Found, found, unexpected_rows}

abbrev pub Rows : Type 0
Rows = List (Bytes × Row)

abbrev pub Links : Type 0
Links = List (Bytes × Bytes)

pub record Memory : Type 0 where
  pub rows : Table → Rows
  pub links : LinkTable → Links

abbrev pub empty_memory : Memory
empty_memory = record { rows = λ t. []; links = λ l. [] }

-- A row read back has its key in the column `id`.
abbrev pub keyed : Bytes → Row → Row
keyed i r k = if column_beq k id then some (text i) else r k

unfoldable pub lookup : Bytes → Rows → Option Row
lookup i [] = none
lookup i ((j, r) ∷ m) = if bytes_beq j i then some (keyed i r) else lookup i m

unfoldable pub remove : Bytes → Rows → Rows
remove i [] = []
remove i ((j, r) ∷ m) = let rest = remove i m in if bytes_beq j i then rest else (j, r) ∷ rest

unfoldable pub modify : Bytes → (Row → Row) → Rows → Rows
modify i f [] = []
modify i f ((j, r) ∷ m) = (j, if bytes_beq j i then f r else r) ∷ modify i f m

unfoldable pub is_linked : Bytes → Bytes → Links → Bool
is_linked a b [] = false
is_linked a b ((x, y) ∷ m) = if bytes_beq x a && bytes_beq y b then true else is_linked a b m

unfoldable pub unlink : Bytes → Bytes → Links → Links
unlink a b [] = []
unlink a b ((x, y) ∷ m) =
    let rest = unlink a b m in if bytes_beq x a && bytes_beq y b then rest else (x, y) ∷ rest

unfoldable pub unlink_all : Bytes → Links → Links
unlink_all a [] = []
unlink_all a ((x, y) ∷ m) =
    let rest = unlink_all a m in if bytes_beq x a then rest else (x, y) ∷ rest

abbrev pub set_rows : Table → Rows → Memory → Memory
set_rows t m s = record s { rows = λ u. if table_beq t u then m else s.rows u }

abbrev pub set_links : LinkTable → Links → Memory → Memory
set_links l m s = record s { links = λ k. if link_beq l k then m else s.links k }

-- Puts a row that is there and passes the test in front.
abbrev pub keep : (Row → Bool) → Option Row → List Row → List Row
keep p none rest = rest
keep p (some r) rest = if p r then r ∷ rest else rest

-- The rows whose key is among `keys` and that pass the test.
unfoldable pub select : (Row → Bool) → Rows → Rows → List Row
select p m [] = []
select p m ((j, _) ∷ keys) = keep p (lookup j m) (select p m keys)

-- The keys linked to `a`.
unfoldable pub targets : Bytes → Links → List Bytes
targets a [] = []
targets a ((x, y) ∷ l) = let rest = targets a l in if bytes_beq x a then y ∷ rest else rest

-- The rows of the keys that pass the test.
unfoldable pub rows_of : (Row → Bool) → Rows → List Bytes → List Row
rows_of p m [] = []
rows_of p m (j ∷ keys) = keep p (lookup j m) (rows_of p m keys)

-- The rows that are linked, by `l`, to one of the keys.
unfoldable pub rows_of_all : (Row → Bool) → Rows → Links → List Bytes → List Row
rows_of_all p m l [] = []
rows_of_all p m l (i ∷ keys) = rows_of p m (targets i l) ++ rows_of_all p m l keys

abbrev pub insert_row : Table → Row → Option Value → Memory → Option Memory
insert_row t r (some (text i)) s = elim (lookup i (s.rows t)) [
  | none ↦ some (set_rows t ((i, r) ∷ s.rows t) s)
  | some _ ↦ none
]
insert_row t r _ s = none

abbrev pub run : Statement → Memory → Memory
run (insert_or_ignore l a b) s = set_links l ((a, b) ∷ s.links l) s
run (delete_links l a) s = set_links l (unlink_all a (s.links l)) s
run (delete_link l a b) s = set_links l (unlink a b (s.links l)) s
run (set_password h i) s =
    set_rows users (modify i (assign (password ∷ []) (some (text h) ∷ [])) (s.rows users)) s

abbrev pub is_administrator : Row → Bool
is_administrator r = is_text (r name) (bytes "Administrator")

abbrev pub is_active : Bytes → Row → Bool
is_active p r = is_text (r name) p && is_text (r status) (bytes "Active")

abbrev pub answer : Query → Memory → List Row
answer (administrator_membership u) s =
    rows_of is_administrator (s.rows roles) (targets u (s.links users_roles))
answer (active_permission u p) s =
    rows_of_all (is_active p) (s.rows permissions) (s.links roles_permissions)
      (targets u (s.links users_roles))
answer (roles_of_user u) s = rows_of (λ r. true) (s.rows roles) (targets u (s.links users_roles))
answer (permissions_of_role i) s =
    rows_of (λ r. true) (s.rows permissions) (targets i (s.links roles_permissions))

abbrev pub found_row : Option Row → Found
found_row none = unexpected_rows
found_row (some r) = found r

abbrev pub memory : Database
memory = record {
  State = Memory;
  find_by = λ t c v s. some (select (λ r. is_text (r c) v) (s.rows t) (s.rows t));
  find_by_primary_key = λ t i s. found_row (lookup i (s.rows t));
  insert = λ t cs vs s. insert_row t (assign cs vs empty_row) (assign cs vs empty_row id) s;
  update = λ t cs vs i s. some (set_rows t (modify i (assign cs (map some vs)) (s.rows t)) s);
  delete_by_primary_key = λ t i s. some (set_rows t (remove i (s.rows t)) s);
  exec = λ q s. some (run q s);
  query = λ q s. some (answer q s);
}
