-- ===== src/Services/Mapper/Laws.antt =====
-- What the calls of the mapper and of `execSqlCoro` do to the links.
use cppadmin.Base.{
  Bytes, Bool, true, false, not, null, contains, ◌&&◌, ◌||◌, bytes_beq, bytes_eq, List, [], ◌∷◌,
  ◌≡◌, refl, ap, ◌∙◌, arith, if◌then◌else◌,
}
use cppadmin.Error.{Error}
use cppadmin.Error.Effect.{Result, ok, for_each}
use cppadmin.Error.Effect.Laws.{
  bind-ok, writes-ok, NeverRefuses, writes-NeverRefuses, for_each-NeverRefuses, bind-NeverRefuses,
  IsReadOnly,
}
use cppadmin.Database.{Database, Found, found, unexpected_rows, failed}
use cppadmin.Database.Schema.{Table, LinkTable, link_beq, insert_or_ignore, delete_links, Row}
use cppadmin.Database.Laws.{IsRelational}
use cppadmin.Services.Mapper.{exec, link_all, replace_links, find_by_primary_key, found_or}

module _ (db : Database) where
  found_or-ok :
      {A : Type 0} (from_row : Row → A) (e : Error) (o : Found) (s s' : db.State) (a : A)
      → found_or db from_row e o s ≡ (ok a, s')
      → (r : Row) × (o ≡ found r) × (a ≡ from_row r) × (s' ≡ s)
  found_or-ok from_row e (found r) s s' a h = (r, refl, ground arith, ground arith)
  found_or-ok from_row e unexpected_rows s s' a h = absurd (ground arith)
  found_or-ok from_row e failed s s' a h = absurd (ground arith)

  pub find_by_primary_key-ok :
      {A : Type 0} (from_row : Row → A) (t : Table) (e : Error) (i : Bytes) (s s' : db.State)
      (a : A)
      → find_by_primary_key db from_row t e i s ≡ (ok a, s')
      → (r : Row) × (db.find_by_primary_key t i s ≡ found r) × (a ≡ from_row r) × (s' ≡ s)
  find_by_primary_key-ok from_row t e i s s' a h =
      found_or-ok from_row e (db.find_by_primary_key t i s) s s' a h

  found_or-IsReadOnly :
      {A : Type 0} (from_row : Row → A) (e : Error) (o : Found) (s : db.State)
      → (found_or db from_row e o s).1 ≡ s
  found_or-IsReadOnly from_row e (found r) s = refl
  found_or-IsReadOnly from_row e unexpected_rows s = refl
  found_or-IsReadOnly from_row e failed s = refl

  pub find_by_primary_key-IsReadOnly :
      {A : Type 0} (from_row : Row → A) (t : Table) (e : Error) (i : Bytes)
      → IsReadOnly (find_by_primary_key db from_row t e i)
  find_by_primary_key-IsReadOnly from_row t e i s =
      found_or-IsReadOnly from_row e (db.find_by_primary_key t i s) s

  pub link_all-NeverRefuses :
      (l : LinkTable) (a : Bytes) (bs : List Bytes) → NeverRefuses (link_all db l a bs)
  link_all-NeverRefuses l a bs =
      for_each-NeverRefuses bs (λ b. exec db (insert_or_ignore l a b))
        (λ b. writes-NeverRefuses (db.exec (insert_or_ignore l a b)))

  pub replace_links-NeverRefuses :
      (l : LinkTable) (a : Bytes) (bs : List Bytes) → NeverRefuses (replace_links db l a bs)
  replace_links-NeverRefuses l a [] s msg code h = absurd (ground arith)
  replace_links-NeverRefuses l a (b ∷ bs) s msg code h =
      bind-NeverRefuses (exec db (delete_links l a)) (λ _. link_all db l a (b ∷ bs))
        (writes-NeverRefuses (db.exec (delete_links l a))) (λ _. link_all-NeverRefuses l a (b ∷ bs))
        s msg code h

  module _ (law : IsRelational db) where
    or_links :
        (l a b c o : Bool)
        → ((l && (a && c)) || ((l && (a && b)) || o)) ≡ ((l && (a && (b || c))) || o)
    or_links true true true true o = refl
    or_links l a b c o = ground arith

    pub link_all-linked :
        (l : LinkTable) (a : Bytes) (bs : List Bytes) (s : db.State)
        → (link_all db l a bs s).0 ≡ ok tt
        → (m : LinkTable) (x y : Bytes)
        → law.linked (link_all db l a bs s).1 m x y
          ≡ ((link_beq l m && (bytes_beq a x && contains bs y)) || law.linked s m x y)
    unfolding for_each contains
    link_all-linked l a [] s h m x y = ground arith
    link_all-linked l a (b ∷ bs) s h m x y =
        let (u, s', e, h', f) =
          bind-ok (λ _. link_all db l a bs) tt (exec db (insert_or_ignore l a b)) s h in
        ap (λ (p : Result (Unit {0}) × db.State). law.linked p.1 m x y) f
        ∙ (link_all-linked l a bs s' h' m x y
            ∙ (ap (λ (o : Bool). (link_beq l m && (bytes_beq a x && contains bs y)) || o)
                  (law.linked_exec (insert_or_ignore l a b) s s'
                    (writes-ok (db.exec (insert_or_ignore l a b)) s s' u e) m x y)
                ∙ or_links (link_beq l m) (bytes_beq a x) (bytes_beq b y) (contains bs y)
                    (law.linked s m x y)))

    pub link_all-stored :
        (l : LinkTable) (a : Bytes) (bs : List Bytes) (s : db.State)
        → (link_all db l a bs s).0 ≡ ok tt
        → (t : Table) (j : Bytes) → law.stored (link_all db l a bs s).1 t j ≡ law.stored s t j
    unfolding for_each
    link_all-stored l a [] s h t j = refl
    link_all-stored l a (b ∷ bs) s h t j =
        let (u, s', e, h', f) =
          bind-ok (λ _. link_all db l a bs) tt (exec db (insert_or_ignore l a b)) s h in
        ap (λ (p : Result (Unit {0}) × db.State). law.stored p.1 t j) f
        ∙ (link_all-stored l a bs s' h' t j
            ∙ law.stored_exec (insert_or_ignore l a b) s s'
                (writes-ok (db.exec (insert_or_ignore l a b)) s s' u e) t j)

    unlinked :
        (l a c o : Bool)
        → ((l && (a && c)) || (if l && a then false else o)) ≡ (if l && a then c else o)
    unlinked true true c o = ground arith
    unlinked l a c o = ground arith

    -- Links are replaced by the ones that are asked for, unless none are.
    pub replace_links-linked :
        (l : LinkTable) (a : Bytes) (bs : List Bytes) (s : db.State)
        → (replace_links db l a bs s).0 ≡ ok tt
        → (m : LinkTable) (x y : Bytes)
        → law.linked (replace_links db l a bs s).1 m x y ≡ (
            if not (null bs) && (link_beq l m && bytes_beq a x)
            then contains bs y
            else law.linked s m x y)
    replace_links-linked l a [] s h m x y = refl
    replace_links-linked l a (b ∷ bs) s h m x y =
        let (u, s', e, h', f) =
          bind-ok (λ _. link_all db l a (b ∷ bs)) tt (exec db (delete_links l a)) s h in
        ap (λ (p : Result (Unit {0}) × db.State). law.linked p.1 m x y) f
        ∙ (link_all-linked l a (b ∷ bs) s' h' m x y
            ∙ (ap (λ (o : Bool). (link_beq l m && (bytes_beq a x && contains (b ∷ bs) y)) || o)
                  (law.linked_exec (delete_links l a) s s'
                    (writes-ok (db.exec (delete_links l a)) s s' u e) m x y)
                ∙ unlinked (link_beq l m) (bytes_beq a x) (contains (b ∷ bs) y)
                    (law.linked s m x y)))

    pub replace_links-stored :
        (l : LinkTable) (a : Bytes) (bs : List Bytes) (s : db.State)
        → (replace_links db l a bs s).0 ≡ ok tt
        → (t : Table) (j : Bytes) → law.stored (replace_links db l a bs s).1 t j ≡ law.stored s t j
    replace_links-stored l a [] s h t j = refl
    replace_links-stored l a (b ∷ bs) s h t j =
        let (u, s', e, h', f) =
          bind-ok (λ _. link_all db l a (b ∷ bs)) tt (exec db (delete_links l a)) s h in
        ap (λ (p : Result (Unit {0}) × db.State). law.stored p.1 t j) f
        ∙ (link_all-stored l a (b ∷ bs) s' h' t j
            ∙ law.stored_exec (delete_links l a) s s'
                (writes-ok (db.exec (delete_links l a)) s s' u e) t j)
