-- ===== src/Services/Users/Laws.antt =====
-- What the operations on users store, and when they change nothing.
use cppadmin.Base.{
  ◌≡◌, sym, ap, ◌∙◌, Bytes, Bool, not, some, arith, bytes_beq, bytes_eq, contains, subst, ◌&&◌,
  null, if◌then◌else◌,
}
use cppadmin.Error.{not_found_error}
use cppadmin.Error.Effect.{Result, ok, pure, ◌>>◌}
use cppadmin.Error.Effect.Laws.{
  bind-ok, writes-ok, RefusesCleanly, NeverRefuses-RefusesCleanly, writes-NeverRefuses,
  bind-NeverRefuses, bind-RefusesCleanly, pure-NeverRefuses,
}
use cppadmin.Database.{Database, found}
use cppadmin.Database.Schema.{LinkTable, Row, users, users_roles, link_beq}
use cppadmin.Database.Laws.{IsRelational}
use cppadmin.Models.Field.{value_of}
use cppadmin.Models.Users.{Users, from_row, update_columns, update_args}
use cppadmin.Models.Users.Laws.{merge}
use cppadmin.Services.Bcrypt.{Bcrypt}
use cppadmin.Services.Mapper.{find_by_primary_key, replace_links}
use cppadmin.Services.Mapper.Laws.{
  find_by_primary_key-ok, find_by_primary_key-IsReadOnly, replace_links-NeverRefuses,
  replace_links-linked, replace_links-stored,
}
use cppadmin.Services.UserRows.{update_user, from_row-id, stored_updated}
use cppadmin.Services.Users.{UserUpdateInput, edited, find_by_id, update}
use cppadmin.Services.Users.Edited.{IsUpdated, merge-IsUpdated}

module _ (db : Database) (bc : Bcrypt) where
  -- An update that throws an AppError leaves the database as it was.
  pub update-RefusesCleanly :
      (i : Bytes) (input : UserUpdateInput) (actor : Bytes)
      → RefusesCleanly (update db bc i input actor)
  unfolding update find_by_id edited
  update-RefusesCleanly i input actor =
      let links = replace_links db users_roles i input.role_ids in
      bind-RefusesCleanly
        (find_by_primary_key db from_row users (not_found_error "User not found.") i)
        (λ u. update_user db (edited input actor u) >> (links >> pure (edited input actor u)))
        (find_by_primary_key-IsReadOnly db from_row users (not_found_error "User not found.") i)
        (λ u.
          NeverRefuses-RefusesCleanly
            (update_user db (edited input actor u) >> (links >> pure (edited input actor u)))
            (bind-NeverRefuses (update_user db (edited input actor u))
              (λ _. links >> pure (edited input actor u))
              (writes-NeverRefuses (
                db.update users (update_columns (edited input actor u))
                  (update_args (edited input actor u)) (value_of u.id)))
              (λ _.
                bind-NeverRefuses links (λ _. pure (edited input actor u))
                  (replace_links-NeverRefuses db users_roles i input.role_ids)
                  (λ _. pure-NeverRefuses (edited input actor u)))))

  user_found :
      (i : Bytes) (s s' : db.State) (u : Users)
      → find_by_id db bc i s ≡ (ok u, s')
      → (row : Row) × (db.find_by_primary_key users i s ≡ found row) × (u ≡ from_row row) × (s' ≡ s)
  unfolding find_by_id
  user_found i s s' u h =
      find_by_primary_key-ok db from_row users (not_found_error "User not found.") i s s' u h

  -- The steps of an update that succeeds.
  record Updated (i : Bytes) (input : UserUpdateInput) (actor : Bytes) (s : db.State) (v : Users)
      : Type 0 where
    row : Row
    saved : db.State
    row_found : db.find_by_primary_key users i s ≡ found row
    object : v ≡ edited input actor (from_row row)
    save : db.update users (update_columns v) (update_args v) (value_of v.id) s ≡ some saved
    links : (replace_links db users_roles i input.role_ids saved).0 ≡ ok tt
    final :
        (update db bc i input actor s).1 ≡ (replace_links db users_roles i input.role_ids saved).1

  links_of :
      (i : Bytes) (input : UserUpdateInput) (w v : Users) (s1 : db.State)
      → ((replace_links db users_roles i input.role_ids >> pure w) s1).0 ≡ ok v
      → (w ≡ v)
        × ((replace_links db users_roles i input.role_ids s1).0 ≡ ok tt)
        × (((replace_links db users_roles i input.role_ids >> pure w) s1).1
            ≡ (replace_links db users_roles i input.role_ids s1).1)
  links_of i input w v s1 h =
      let (t2, s2, e2, h2, f2) =
        bind-ok (λ _. pure w) v (replace_links db users_roles i input.role_ids) s1 h in
      (
        ground arith,
        ap (λ (p : Result (Unit {0}) × db.State). p.0) e2,
        ap (λ (p : Result Users × db.State). p.1) f2
            ∙ sym (ap (λ (p : Result (Unit {0}) × db.State). p.1) e2),
      )

  saved_of :
      (i : Bytes) (input : UserUpdateInput) (w v : Users) (s0 : db.State)
      → ((update_user db w >> (replace_links db users_roles i input.role_ids >> pure w)) s0).0
        ≡ ok v
      → (s1 : db.State) × (db.update users (update_columns w) (update_args w) (value_of w.id) s0
          ≡ some s1)
        × (w ≡ v)
        × ((replace_links db users_roles i input.role_ids s1).0 ≡ ok tt)
        × (((update_user db w >> (replace_links db users_roles i input.role_ids >> pure w)) s0).1
            ≡ (replace_links db users_roles i input.role_ids s1).1)
  saved_of i input w v s0 h =
      let (t1, s1, e1, h1, f1) =
        bind-ok (λ _. replace_links db users_roles i input.role_ids >> pure w) v (update_user db w)
          s0 h in
      let (same, fine, end) = links_of i input w v s1 h1 in
      (
        s1,
        writes-ok (db.update users (update_columns w) (update_args w) (value_of w.id)) s0 s1 t1 e1,
        same,
        fine,
        ap (λ (p : Result Users × db.State). p.1) f1 ∙ end,
      )

  update_trace :
      (i : Bytes) (input : UserUpdateInput) (actor : Bytes) (s : db.State) (v : Users)
      → (update db bc i input actor s).0 ≡ ok v
      → Updated i input actor s v
  unfolding update
  update_trace i input actor s v h =
      let (u, s0, e0, h0, f0) =
        bind-ok
          (λ u.
            update_user db (edited input actor u)
            >> (replace_links db users_roles i input.role_ids >> pure (edited input actor u)))
          v (find_by_id db bc i) s h in
      let (row, found_row, same, at) = user_found i s s0 u e0 in
      let (s1, save, made, fine, end) = saved_of i input (edited input actor u) v s0 h0 in
      record {
        row = row;
        saved = s1;
        row_found = found_row;
        object = sym made ∙ ap (edited input actor) same;
        save =
            subst
              (λ (w : Users).
                db.update users (update_columns w) (update_args w) (value_of w.id) s ≡ some s1)
              made
              (subst
                (λ (z : db.State).
                  db.update users (update_columns (edited input actor u))
                    (update_args (edited input actor u)) (value_of (edited input actor u).id) z
                  ≡ some s1)
                at save);
        links = fine;
        final = ap (λ (p : Result Users × db.State). p.1) f0 ∙ end;
      }

  module _ (law : IsRelational db) where
    -- On a relational database, an update that succeeds changes the columns of the user's row as
    -- the input says, where an empty text leaves a column as it is, a block reason only counts
    -- with a block, and email, password and OTP stay; and it replaces the roles, unless the input
    -- names none, while other users keep theirs.
    pub update_sound :
        (i : Bytes) (input : UserUpdateInput) (actor : Bytes) (s : db.State) (v : Users)
        → (update db bc i input actor s).0 ≡ ok v
        → ((row : Row) × (row' : Row) × (law.stored s users i ≡ some row)
            × (v ≡ edited input actor (from_row row))
            × (law.stored (update db bc i input actor s).1 users i ≡ some row')
            × (from_row row' ≡ merge v (from_row row))
            × IsUpdated input actor (from_row row) (from_row row'))
          × ((l : LinkTable) (x y : Bytes)
              → law.linked (update db bc i input actor s).1 l x y ≡ (
                  if not (null input.role_ids) && (link_beq users_roles l && bytes_beq i x)
                  then contains input.role_ids y
                  else law.linked s l x y))
    unfolding edited
    update_sound i input actor s v h =
        let t = update_trace i input actor s v h in
        let there = law.found_stored users i s t.row t.row_found in
        let named : value_of v.id ≡ i =
          ap (λ (w : Users). value_of w.id) t.object ∙ from_row-id db law s i t.row there in
        let (row', there', merged) = stored_updated db law v i t.row s t.saved named there t.save in
        (
          (
            t.row,
            row',
            there,
            t.object,
            ap (λ (z : db.State). law.stored z users i) t.final
                ∙ (replace_links-stored db law users_roles i input.role_ids t.saved t.links users i
                    ∙ there'),
            merged,
            subst (IsUpdated input actor (from_row t.row))
                (sym (merged ∙ ap (λ (w : Users). merge w (from_row t.row)) t.object))
                (merge-IsUpdated input actor (from_row t.row)),
          ),
          λ l x y.
              ap (λ (z : db.State). law.linked z l x y) t.final
              ∙ (replace_links-linked db law users_roles i input.role_ids t.saved t.links l x y
                  ∙ ap
                      (λ (b : Bool).
                        if not (null input.role_ids) && (link_beq users_roles l && bytes_beq i x)
                        then contains input.role_ids y
                        else b)
                      (law.linked_update users (update_columns v) (update_args v) (value_of v.id) s
                        t.saved t.save l x y)),
        )
