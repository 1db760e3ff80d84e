-- ===== src/Database/Memory/Relational.antt =====
-- The database in memory has the laws.
use cppadmin.Base.{
  ap, some_inj, Bytes, bytes, Bool, true, false, List, [], ◌∷◌, Option, none, some, ◌≡◌, ◌≢◌, ◌↔◌,
  ◌&&◌, All, arith, refl, subst, bytes_beq, bytes_beq_iff, if◌then◌else◌, null, sym, ◌∙◌, bytes_eq,
  map,
}
use mathlib.Core.Option
use cppadmin.Database.Schema.{
  Table, users, roles, permissions, LinkTable, users_roles, roles_permissions, Column, id, name,
  password, status, Value, text, Row, Statement, insert_or_ignore, delete_links, delete_link,
  set_password, table_beq, empty_row, assign, has_column, is_text, column_beq,
}
use cppadmin.Database.{found, unexpected_rows}
use cppadmin.Database.Laws.{IsRelational, stored_after, linked_after}
use cppadmin.Database.Memory.{
  Memory, Rows, lookup, modify, remove, is_linked, select, targets, rows_of, rows_of_all, memory,
  insert_row, is_administrator, is_active, run, found_row, set_rows,
}
use cppadmin.Database.Memory.Lookup.{
  is_text_iff, keyed_same, lookup-id, lookup-remove, lookup-modify, assign-KeepsKey,
  is_linked-unlink, is_linked-unlink_all,
}
use cppadmin.Database.Memory.Selection.{
  Selected, select_sound, select_complete, Joined, rows_of_sound, rows_of_complete, rows_of-some,
  contains-targets, rows_of_all_some, rows_of_all_complete,
}

abbrev pub stored : Memory → Table → Bytes → Option Row
stored s t i = lookup i (s.rows t)

abbrev pub linked : Memory → LinkTable → Bytes → Bytes → Bool
linked s l a b = is_linked a b (s.links l)

All-map : (P Q : Row → Type 0) → ((r : Row) → P r → Q r) → (rs : List Row) → All P rs → All Q rs
All-map P Q f [] h = tt
All-map P Q f (r ∷ rs) (p, h) = (f r p, All-map P Q f rs h)

table_beq_iff : (t u : Table) → (table_beq t u ≡ true) ↔ (t ≡ u)
table_beq_iff users u = ground arith
table_beq_iff _ u = ground arith

set_rows-lookup :
    (t u : Table) (m : Rows) (s : Memory) (j : Bytes)
    → stored (set_rows t m s) u j ≡ (if table_beq t u then lookup j m else stored s u j)
set_rows-lookup t u m s j = ground arith

pub stored_insert :
    (t : Table) (r : Row) (o : Option Value) (s s' : Memory)
    → r id ≡ o
    → insert_row t r o s ≡ some s'
    → (u : Table) (j : Bytes)
    → stored s' u j ≡ (if table_beq t u && is_text o j then some r else stored s u j)
unfolding lookup is_text
stored_insert t r (some (text i)) s s' e h u j =
    ground (arith, bytes_beq_iff i j, keyed_same j r, table_beq_iff t u, table_beq_iff t t)
stored_insert t r (some _) s s' e h u j = cc
stored_insert t r none s s' e h u j = cc

pub linked_insert :
    (t : Table) (r : Row) (o : Option Value) (s s' : Memory)
    → insert_row t r o s ≡ some s'
    → (l : LinkTable) (a b : Bytes) → linked s' l a b ≡ linked s l a b
linked_insert t r (some (text i)) s s' h l a b = ground arith
linked_insert t r _ s s' h l a b = cc

pub stored_exec :
    (q : Statement) (s : Memory) (u : Table) (j : Bytes)
    → stored (run q s) u j ≡ stored_after q (stored s) u j
unfolding has_column column_beq
stored_exec (set_password h i) s u j = ground (
  arith,
  table_beq_iff users u,
  lookup-modify i j (assign (password ∷ []) (some (text h) ∷ [])) (s.rows users)
      (assign-KeepsKey (password ∷ []) (some (text h) ∷ []) refl),
)
stored_exec _ s u j = refl

pub linked_exec :
    (q : Statement) (s : Memory) (l : LinkTable) (a b : Bytes)
    → linked (run q s) l a b ≡ linked_after q (linked s) l a b
unfolding is_linked
linked_exec (insert_or_ignore k x y) s l a b = ground arith
linked_exec (delete_links k x) s l a b = ground (arith, is_linked-unlink_all x a b (s.links k))
linked_exec (delete_link k x y) s l a b = ground (arith, is_linked-unlink x y a b (s.links k))
linked_exec (set_password h i) s l a b = refl

module _ (u : Bytes) (s : Memory) where
  administrator_iff :
      (null (rows_of is_administrator (s.rows roles) (targets u (s.links users_roles))) ≡ false) ↔ (
        (i : Bytes) × (r : Row) × (linked s users_roles u i ≡ true)
        × (stored s roles i ≡ some r)
        × (r name ≡ some (text (bytes "Administrator"))))
  administrator_iff = (
    λ h.
        let (i, r, c, e, q) =
          rows_of-some is_administrator (s.rows roles) (targets u (s.links users_roles)) h in
        (
          i,
          r,
          sym (contains-targets u i (s.links users_roles)) ∙ c,
          e,
          (is_text_iff (r name) (bytes "Administrator")).0 q,
        ),
    λ (i, r, c, e, q).
        rows_of_complete is_administrator (s.rows roles) (targets u (s.links users_roles)) i r
          (contains-targets u i (s.links users_roles) ∙ c) e
          ((is_text_iff (r name) (bytes "Administrator")).1 q),
  )

  active_permission_iff :
      (p : Bytes)
      → (null (
            rows_of_all
              (is_active p)
              (s.rows permissions)
              (s.links roles_permissions)
              (targets u (s.links users_roles)))
          ≡ false)
        ↔ ((i : Bytes) × (j : Bytes) × (r : Row) × (linked s users_roles u i ≡ true)
            × (linked s roles_permissions i j ≡ true)
            × (stored s permissions j ≡ some r)
            × (r name ≡ some (text p))
            × (r status ≡ some (text (bytes "Active"))))
  active_permission_iff p = (
    λ h.
        let (i, j, r, c, d, e, q) =
          rows_of_all_some (is_active p) (s.rows permissions) (s.links roles_permissions)
            (targets u (s.links users_roles)) h in
        (
          i,
          j,
          r,
          sym (contains-targets u i (s.links users_roles)) ∙ c,
          d,
          e,
          ground (arith, is_text_iff (r name) p),
          ground (arith, is_text_iff (r status) (bytes "Active")),
        ),
    λ (i, j, r, c, d, e, q, q').
        rows_of_all_complete (is_active p) (s.rows permissions) (s.links roles_permissions)
          (targets u (s.links users_roles))
          (
            i,
            j,
            r,
            contains-targets u i (s.links users_roles) ∙ c,
            d,
            e,
            ground (arith, is_text_iff (r name) p, is_text_iff (r status) (bytes "Active")),
          ),
  )

pub joined_rows :
    (l : LinkTable) (t : Table) (u : Bytes) (s : Memory)
    → All
        (λ r. (i : Bytes) × (linked s l u i ≡ true) × (stored s t i ≡ some r))
        (rows_of (λ r. true) (s.rows t) (targets u (s.links l)))
joined_rows l t u s =
    All-map (Joined (λ r. true) (s.rows t) (targets u (s.links l)))
      (λ r. (i : Bytes) × (linked s l u i ≡ true) × (stored s t i ≡ some r))
      (λ r (i, c, e, q). (i, sym (contains-targets u i (s.links l)) ∙ c, e))
      (rows_of (λ r. true) (s.rows t) (targets u (s.links l)))
      (rows_of_sound (λ r. true) (s.rows t) (targets u (s.links l)))

pub found_stored : (o : Option Row) (r : Row) → found_row o ≡ found r → o ≡ some r
found_stored none r h = cc
found_stored (some q) r h = cc

pub unexpected_stored : (o : Option Row) → found_row o ≡ unexpected_rows → o ≡ none
unexpected_stored none h = refl
unexpected_stored (some q) h = cc

pub find_by_complete :
    (t : Table) (c : Column) (v : Bytes) (s : Memory) (i : Bytes) (r : Row)
    → select (λ q. is_text (q c) v) (s.rows t) (s.rows t) ≡ []
    → stored s t i ≡ some r
    → r c ≢ some (text v)
find_by_complete t c v s i r h e q =
    select_complete (λ p. is_text (p c) v) (s.rows t) (s.rows t) i r (λ n. cc) e
      ((is_text_iff (r c) v).1 q) h

pub find_by_sound :
    (t : Table) (c : Column) (v : Bytes) (s : Memory)
    → All
        (λ r. (r c ≡ some (text v)) × ((i : Bytes) × (stored s t i ≡ some r)))
        (select (λ q. is_text (q c) v) (s.rows t) (s.rows t))
find_by_sound t c v s =
    All-map (Selected (λ q. is_text (q c) v) (s.rows t))
      (λ r. (r c ≡ some (text v)) × ((i : Bytes) × (stored s t i ≡ some r)))
      (λ r (p, w). ((is_text_iff (r c) v).0 p, w))
      (select (λ q. is_text (q c) v) (s.rows t) (s.rows t))
      (select_sound (λ q. is_text (q c) v) (s.rows t) (s.rows t))

pub stored_update :
    (t : Table) (cs : List Column) (vs : List Value) (i : Bytes) (s : Memory)
    → has_column id cs ≡ false
    → (u : Table) (j : Bytes)
    → stored (set_rows t (modify i (assign cs (map some vs)) (s.rows t)) s) u j ≡ (
        if table_beq t u && bytes_beq i j
        then Option.map (assign cs (map some vs)) (stored s u j)
        else stored s u j)
stored_update t cs vs i s h u j = ground (
  arith,
  table_beq_iff t u,
  lookup-modify i j (assign cs (map some vs)) (s.rows t) (assign-KeepsKey cs (map some vs) h),
)

pub stored_delete :
    (t : Table) (i : Bytes) (s : Memory) (u : Table) (j : Bytes)
    → stored (set_rows t (remove i (s.rows t)) s) u j
      ≡ (if table_beq t u && bytes_beq i j then none else stored s u j)
stored_delete t i s u j = ground (arith, table_beq_iff t u, lookup-remove i j (s.rows t))

pub administrator_query :
    (u : Bytes) (s : Memory) (rs : List Row)
    → rows_of is_administrator (s.rows roles) (targets u (s.links users_roles)) ≡ rs
    → (null rs ≡ false) ↔ (
        (i : Bytes) × (r : Row) × (linked s users_roles u i ≡ true)
        × (stored s roles i ≡ some r)
        × (r name ≡ some (text (bytes "Administrator"))))
administrator_query u s rs h = rw (← h) (administrator_iff u s)

pub active_permission_query :
    (u p : Bytes) (s : Memory) (rs : List Row)
    → rows_of_all
        (is_active p)
        (s.rows permissions)
        (s.links roles_permissions)
        (targets u (s.links users_roles))
      ≡ rs
    → (null rs ≡ false) ↔ (
        (i : Bytes) × (j : Bytes) × (r : Row) × (linked s users_roles u i ≡ true)
        × (linked s roles_permissions i j ≡ true)
        × (stored s permissions j ≡ some r)
        × (r name ≡ some (text p))
        × (r status ≡ some (text (bytes "Active"))))
active_permission_query u p s rs h = rw (← h) (active_permission_iff u s p)

-- Moves a fact about the state that an operation returned.
module _ {s s' : Memory} (h : some s ≡ some s') where
  pub stored_in : (u : Table) (j : Bytes) → stored s' u j ≡ stored s u j
  stored_in u j = ap (λ (x : Memory). stored x u j) (sym (some_inj h))

  pub linked_in : (l : LinkTable) (a b : Bytes) → linked s' l a b ≡ linked s l a b
  linked_in l a b = ap (λ (x : Memory). linked x l a b) (sym (some_inj h))

unfoldable pub memory_laws : IsRelational memory
memory_laws = record {
  stored = stored;
  linked = linked;
  stored_id = λ s t i r h. lookup-id i (s.rows t) r h;
  find_by_sound = λ t c v s rs h.
      subst (All (λ r. (r c ≡ some (text v)) × ((i : Bytes) × (stored s t i ≡ some r))))
        (some_inj h) (find_by_sound t c v s);
  find_by_complete = λ t c v s i r h. find_by_complete t c v s i r (some_inj h);
  found_stored = λ t i s r h. found_stored (stored s t i) r h;
  unexpected_stored = λ t i s h. unexpected_stored (stored s t i) h;
  stored_insert = λ t cs vs s s' h.
      stored_insert t (assign cs vs empty_row) (assign cs vs empty_row id) s s' refl h;
  linked_insert =
      λ t cs vs s s' h. linked_insert t (assign cs vs empty_row) (assign cs vs empty_row id) s s' h;
  stored_update = λ t cs vs i s s' k h u j. stored_in h u j ∙ stored_update t cs vs i s k u j;
  linked_update = λ t cs vs i s s' h l a b. linked_in h l a b;
  stored_delete = λ t i s s' h u j. stored_in h u j ∙ stored_delete t i s u j;
  stored_exec = λ q s s' h u j. stored_in h u j ∙ stored_exec q s u j;
  linked_exec = λ q s s' h l a b. linked_in h l a b ∙ linked_exec q s l a b;
  administrator_iff = λ u s rs h. administrator_query u s rs (some_inj h);
  active_permission_iff = λ u p s rs h. active_permission_query u p s rs (some_inj h);
  roles_of_user_sound = λ u s rs h.
      subst
        (All (λ r. (i : Bytes) × (linked s users_roles u i ≡ true) × (stored s roles i ≡ some r)))
        (some_inj h) (joined_rows users_roles roles u s);
  permissions_of_role_sound = λ u s rs h.
      subst
        (All (λ r.
          (i : Bytes) × (linked s roles_permissions u i ≡ true)
          × (stored s permissions i ≡ some r)))
        (some_inj h) (joined_rows roles_permissions permissions u s);
}
