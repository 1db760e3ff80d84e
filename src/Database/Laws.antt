-- ===== src/Database/Laws.antt =====
-- What the services rely on of the database. A record of this type is a hypothesis of the theorems
-- about them: it gives the stored row of each primary key and the links between rows, and says
-- how each operation that succeeds changes them. Nothing says that an operation succeeds.
use cppadmin.Base.{
  Bytes, bytes, Bool, true, false, List, [], ◌∷◌, Option, none, some, ◌≡◌, ◌≢◌, ◌↔◌, ◌&&◌, ◌||◌,
  All, bytes_beq, null, map, if◌then◌else◌,
}
use mathlib.Core.Option
use cppadmin.Database.Schema.{
  Table, users, roles, permissions, LinkTable, users_roles, roles_permissions, Column, id, name,
  status, password, Value, text, Row, Statement, insert_or_ignore, delete_links, delete_link,
  set_password, administrator_membership, active_permission, roles_of_user, permissions_of_role,
  table_beq, link_beq, empty_row, assign, has_column, is_text,
}
use cppadmin.Database.{Database, found, unexpected_rows}

-- What each statement does to the links.
abbrev pub linked_after :
    Statement → (LinkTable → Bytes → Bytes → Bool) → LinkTable → Bytes → Bytes → Bool
linked_after (insert_or_ignore l a b) old m x y =
    (link_beq l m && (bytes_beq a x && bytes_beq b y)) || old m x y
linked_after (delete_links l a) old m x y =
    if link_beq l m && bytes_beq a x then false else old m x y
linked_after (delete_link l a b) old m x y =
    if link_beq l m && (bytes_beq a x && bytes_beq b y) then false else old m x y
linked_after (set_password h i) old m x y = old m x y

-- What each statement does to the rows.
abbrev pub stored_after : Statement → (Table → Bytes → Option Row) → Table → Bytes → Option Row
stored_after (set_password h i) old t j =
    if table_beq users t && bytes_beq i j
    then Option.map (assign (password ∷ []) (some (text h) ∷ [])) (old t j)
    else old t j
stored_after (insert_or_ignore l a b) old t j = old t j
stored_after (delete_links l a) old t j = old t j
stored_after (delete_link l a b) old t j = old t j

pub record IsRelational (db : Database) : Type 0 where
  pub stored : db.State → Table → Bytes → Option Row
  pub linked : db.State → LinkTable → Bytes → Bytes → Bool
  pub stored_id :
      (s : db.State) (t : Table) (i : Bytes) (r : Row)
      → stored s t i ≡ some r
      → r id ≡ some (text i)
  pub find_by_sound :
      (t : Table) (c : Column) (v : Bytes) (s : db.State) (rs : List Row)
      → db.find_by t c v s ≡ some rs
      → All (λ r. (r c ≡ some (text v)) × ((i : Bytes) × (stored s t i ≡ some r))) rs
  pub find_by_complete :
      (t : Table) (c : Column) (v : Bytes) (s : db.State) (i : Bytes) (r : Row)
      → db.find_by t c v s ≡ some []
      → stored s t i ≡ some r
      → r c ≢ some (text v)
  pub found_stored :
      (t : Table) (i : Bytes) (s : db.State) (r : Row)
      → db.find_by_primary_key t i s ≡ found r
      → stored s t i ≡ some r
  pub unexpected_stored :
      (t : Table) (i : Bytes) (s : db.State)
      → db.find_by_primary_key t i s ≡ unexpected_rows
      → stored s t i ≡ none
  pub stored_insert :
      (t : Table) (cs : List Column) (vs : List (Option Value)) (s s' : db.State)
      → db.insert t cs vs s ≡ some s'
      → (u : Table) (j : Bytes)
      → stored s' u j ≡ (
          if table_beq t u && is_text (assign cs vs empty_row id) j
          then some (assign cs vs empty_row)
          else stored s u j)
  pub linked_insert :
      (t : Table) (cs : List Column) (vs : List (Option Value)) (s s' : db.State)
      → db.insert t cs vs s ≡ some s'
      → (l : LinkTable) (a b : Bytes) → linked s' l a b ≡ linked s l a b
  pub stored_update :
      (t : Table) (cs : List Column) (vs : List Value) (i : Bytes) (s s' : db.State)
      → has_column id cs ≡ false
      → db.update t cs vs i s ≡ some s'
      → (u : Table) (j : Bytes)
      → stored s' u j ≡ (
          if table_beq t u && bytes_beq i j
          then Option.map (assign cs (map some vs)) (stored s u j)
          else stored s u j)
  pub linked_update :
      (t : Table) (cs : List Column) (vs : List Value) (i : Bytes) (s s' : db.State)
      → db.update t cs vs i s ≡ some s'
      → (l : LinkTable) (a b : Bytes) → linked s' l a b ≡ linked s l a b
  pub stored_delete :
      (t : Table) (i : Bytes) (s s' : db.State)
      → db.delete_by_primary_key t i s ≡ some s'
      → (u : Table) (j : Bytes)
      → stored s' u j ≡ (if table_beq t u && bytes_beq i j then none else stored s u j)
  pub stored_exec :
      (q : Statement) (s s' : db.State)
      → db.exec q s ≡ some s'
      → (u : Table) (j : Bytes) → stored s' u j ≡ stored_after q (stored s) u j
  pub linked_exec :
      (q : Statement) (s s' : db.State)
      → db.exec q s ≡ some s'
      → (l : LinkTable) (a b : Bytes) → linked s' l a b ≡ linked_after q (linked s) l a b
  pub administrator_iff :
      (u : Bytes) (s : db.State) (rs : List Row)
      → db.query (administrator_membership u) s ≡ some rs
      → (null rs ≡ false) ↔ (
          (i : Bytes) × (r : Row) × (linked s users_roles u i ≡ true)
          × (stored s roles i ≡ some r)
          × (r name ≡ some (text (bytes "Administrator"))))
  pub active_permission_iff :
      (u p : Bytes) (s : db.State) (rs : List Row)
      → db.query (active_permission u p) s ≡ some rs
      → (null rs ≡ false) ↔ (
          (i : Bytes) × (j : Bytes) × (r : Row) × (linked s users_roles u i ≡ true)
          × (linked s roles_permissions i j ≡ true)
          × (stored s permissions j ≡ some r)
          × (r name ≡ some (text p))
          × (r status ≡ some (text (bytes "Active"))))
  pub roles_of_user_sound :
      (u : Bytes) (s : db.State) (rs : List Row)
      → db.query (roles_of_user u) s ≡ some rs
      → All (λ r. (i : Bytes) × (linked s users_roles u i ≡ true) × (stored s roles i ≡ some r)) rs
  pub permissions_of_role_sound :
      (u : Bytes) (s : db.State) (rs : List Row)
      → db.query (permissions_of_role u) s ≡ some rs
      → All
          (λ r.
            (i : Bytes) × (linked s roles_permissions u i ≡ true)
            × (stored s permissions i ≡ some r))
          rs
