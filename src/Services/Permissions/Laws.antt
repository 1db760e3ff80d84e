-- ===== src/Services/Permissions/Laws.antt =====
-- What an update of a permission stores.
use cppadmin.Base.{◌≡◌, refl, sym, ap, ◌∙◌, subst, Bytes, some, map, arith, bytes_beq_refl}
use cppadmin.Error.{not_found_error}
use cppadmin.Error.Effect.{Result, ok, pure, ◌>>◌}
use cppadmin.Error.Effect.Laws.{bind-ok, writes-ok}
use cppadmin.Database.{Database}
use cppadmin.Database.Schema.{Row, permissions, assign}
use cppadmin.Database.Laws.{IsRelational}
use cppadmin.Models.Field.{value_of}
use cppadmin.Models.Permissions.{Permissions, from_row, update_columns, update_args}
use cppadmin.Models.Permissions.Laws.{merge, permissions_from_row-update, has_column-update_columns}
use cppadmin.Services.Mapper.Laws.{find_by_primary_key-ok}
use cppadmin.Services.Permissions.{PermissionInput, edited, save, find_by_id, update}

module _ (db : Database) (law : IsRelational db) where
  row_id :
      (s : db.State) (i : Bytes) (r : Row)
      → law.stored s permissions i ≡ some r
      → value_of (from_row r).id ≡ i
  unfolding from_row
  row_id s i r h = rw (law.stored_id s permissions i r h) refl

  save-stored :
      (p : Permissions) (i : Bytes) (r : Row) (s s' : db.State)
      → value_of p.id ≡ i
      → law.stored s permissions i ≡ some r
      → db.update permissions (update_columns p) (update_args p) (value_of p.id) s ≡ some s'
      → (r' : Row) × (law.stored s' permissions i ≡ some r') × (from_row r' ≡ merge p (from_row r))
  save-stored p i r s s' e there f = (
    assign (update_columns p) (map some (update_args p)) r,
    law.stored_update permissions (update_columns p) (update_args p) (value_of p.id) s s'
          (has_column-update_columns p) f permissions i
        ∙ rw (e, bytes_beq_refl i, there) refl,
    permissions_from_row-update p r,
  )

  -- An update that succeeds was of a stored permission, and merges the edited object into its
  -- row.
  pub permission_update_sound :
      (i : Bytes) (input : PermissionInput) (actor : Bytes) (s : db.State) (v : Permissions)
      → (update db i input actor s).0 ≡ ok v
      → (row : Row) × (row' : Row) × (law.stored s permissions i ≡ some row)
        × (v ≡ edited input actor (from_row row))
        × (law.stored (update db i input actor s).1 permissions i ≡ some row')
        × (from_row row' ≡ merge v (from_row row))
  unfolding update find_by_id edited
  permission_update_sound i input actor s v h =
      let (p, s0, e0, h0, f0) =
        bind-ok (λ (p : Permissions). save db (edited input actor p) >> pure (edited input actor p))
          v (find_by_id db i) s h in
      let (row, found_row, same, at) =
        find_by_primary_key-ok db from_row permissions (not_found_error "Permission not found.") i s
          s0 p e0 in
      let there = law.found_stored permissions i s row found_row in
      let q = edited input actor p in
      let (t1, s1, e1, h1, f1) = bind-ok (λ _. pure q) v (save db q) s0 h0 in
      let saved =
        writes-ok (db.update permissions (update_columns q) (update_args q) (value_of q.id)) s0 s1
          t1 e1 in
      let made : q ≡ v = ground arith in
      let named : value_of q.id ≡ i =
        ap (λ (w : Permissions). value_of w.id) same ∙ row_id s i row there in
      let (row', there', merged) =
        save-stored q i row s0 s1 named
          (subst (λ (z : db.State). law.stored z permissions i ≡ some row) (sym at) there) saved in
      (
        row,
        row',
        there,
        sym made ∙ ap (edited input actor) same,
        ap (λ (r : Result Permissions × db.State). law.stored r.1 permissions i) (f0 ∙ f1) ∙ there',
        merged ∙ ap (λ (w : Permissions). merge w (from_row row)) made,
      )
