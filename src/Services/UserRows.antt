-- ===== src/Services/UserRows.antt =====
-- The stored users, and what inserting and updating one does to them.
use cppadmin.Base.{
  ◌≡◌, ◌⊎◌, refl, sym, ap, ◌∙◌, Bytes, Bool, false, [], Option, some, map, Bool-cases, inl, inr,
  bytes_beq, bytes_beq_iff, bytes_beq_refl, some_inj, subst, ◌&&◌, if◌then◌else◌,
}
use mathlib.Core.Option
use cppadmin.Database.{Database}
use cppadmin.Database.Schema.{
  Table, Row, Value, users, text, assign, empty_row, column_beq, is_text, table_beq,
}
use cppadmin.Database.Schema
use cppadmin.Database.Laws.{IsRelational}
use cppadmin.Error.Effect.{Effect}
use cppadmin.Services.Mapper.{insert, update}
use cppadmin.Models.Field.{value_of}
use cppadmin.Models.Users.{
  Users, from_row, insert_columns, output_args, update_columns, update_args,
}
use cppadmin.Models.Users.Laws.{merge, from_row-update, has_column-update_columns}

-- The row that an object of class `Users` is inserted as.
abbrev pub row_of : Users → Row
row_of u = assign insert_columns (output_args u) empty_row

row_of-id : (u : Users) → row_of u Schema.id ≡ Option.map text u.id
unfolding output_args assign column_beq
row_of-id u = refl

pub row_of-email : (u : Users) → row_of u Schema.email ≡ Option.map text u.email
unfolding output_args assign column_beq
row_of-email u = refl

module _ (db : Database) where
  -- mapper.insert(u)
  abbrev pub insert_user : Users → Effect db.State (Unit {0})
  insert_user u = insert db users insert_columns (output_args u)

  -- mapper.update(u)
  abbrev pub update_user : Users → Effect db.State (Unit {0})
  update_user u = update db users (update_columns u) (update_args u) (value_of u.id)

module _ (db : Database) (law : IsRelational db) where
  -- No two stored users have the same email.
  abbrev pub HasUniqueEmails : db.State → Type 0
  HasUniqueEmails s =
      (i j : Bytes) (r q : Row) (e : Bytes)
      → law.stored s users i ≡ some r
      → law.stored s users j ≡ some q
      → r Schema.email ≡ some (text e)
      → q Schema.email ≡ some (text e)
      → i ≡ j

  pub stored_inserted :
      (u : Users) (uuid : Bytes) (s s' : db.State)
      → u.id ≡ some uuid
      → db.insert users insert_columns (output_args u) s ≡ some s'
      → (t : Table) (j : Bytes)
      → law.stored s' t j
        ≡ (if table_beq users t && bytes_beq uuid j then some (row_of u) else law.stored s t j)
  unfolding is_text
  stored_inserted u uuid s s' e f t j =
      let named : row_of u Schema.id ≡ some (text uuid) = row_of-id u ∙ ap (Option.map text) e in
      law.stored_insert users insert_columns (output_args u) s s' f t j
      ∙ ap
          (λ (v : Option Value).
            if table_beq users t && is_text v j then some (row_of u) else law.stored s t j)
          named

  pub stored_inserted-cases :
      (u : Users) (uuid : Bytes) (s s' : db.State)
      → u.id ≡ some uuid
      → db.insert users insert_columns (output_args u) s ≡ some s'
      → (j : Bytes) (r : Row) → law.stored s' users j ≡ some r
      → ((uuid ≡ j) × (row_of u ≡ r)) ⊎ (law.stored s users j ≡ some r)
  stored_inserted-cases u uuid s s' e f j r h =
      let found = sym (stored_inserted u uuid s s' e f users j) ∙ h in
      elim (Bool-cases (bytes_beq uuid j)) [
        | inl same ↦ inl (
          (bytes_beq_iff uuid j).0 same,
          some_inj (
              subst (λ (b : Bool). (if b then some (row_of u) else law.stored s users j) ≡ some r)
                same found),
        )
        | inr off ↦ inr (
            subst (λ (b : Bool). (if b then some (row_of u) else law.stored s users j) ≡ some r) off
              found)
      ]

  -- An insertion whose email is not there keeps the emails unique.
  pub inserted-HasUniqueEmails :
      (u : Users) (uuid mail : Bytes) (s s' : db.State)
      → u.id ≡ some uuid
      → u.email ≡ some mail
      → db.find_by users Schema.email mail s ≡ some []
      → db.insert users insert_columns (output_args u) s ≡ some s'
      → HasUniqueEmails s
      → HasUniqueEmails s'
  inserted-HasUniqueEmails u uuid mail s s' e em none_there f unique i j r q m hi hj er eq =
      let old : (k : Bytes) (p : Row)
          → law.stored s users k ≡ some p
          → p Schema.email ≡ some (text m)
          → row_of u Schema.email ≡ some (text m)
          → ⊥ =
        λ k p there pe ue.
          law.find_by_complete users Schema.email mail s k p none_there there
            (pe ∙ (sym ue ∙ (row_of-email u ∙ ap (Option.map text) em))) in
      elim (stored_inserted-cases u uuid s s' e f i r hi) [
        | inl (a, b) ↦ elim (stored_inserted-cases u uuid s s' e f j q hj) [
          | inl (c, d) ↦ sym a ∙ c
          | inr c ↦ absurd (old j q c eq (ap (λ (x : Row). x Schema.email) b ∙ er))
        ]
        | inr a ↦ elim (stored_inserted-cases u uuid s s' e f j q hj) [
          | inl (c, d) ↦ absurd (old i r a er (ap (λ (x : Row). x Schema.email) d ∙ eq))
          | inr c ↦ unique i j r q m a c er eq
        ]
      ]

  pub from_row-id :
      (s : db.State) (i : Bytes) (r : Row)
      → law.stored s users i ≡ some r
      → value_of (from_row r).id ≡ i
  unfolding from_row
  from_row-id s i r h = rw (law.stored_id s users i r h) refl

  -- An update of a stored user merges the object into the row.
  pub stored_updated :
      (u : Users) (i : Bytes) (r : Row) (s s' : db.State)
      → value_of u.id ≡ i
      → law.stored s users i ≡ some r
      → db.update users (update_columns u) (update_args u) (value_of u.id) s ≡ some s'
      → (r' : Row) × (law.stored s' users i ≡ some r') × (from_row r' ≡ merge u (from_row r))
  stored_updated u i r s s' e there f = (
    assign (update_columns u) (map some (update_args u)) r,
    law.stored_update users (update_columns u) (update_args u) (value_of u.id) s s'
          (has_column-update_columns u) f users i
        ∙ rw (e, bytes_beq_refl i, there) refl,
    from_row-update u r,
  )

  -- It changes no other row.
  pub stored_elsewhere :
      (u : Users) (s s' : db.State)
      → db.update users (update_columns u) (update_args u) (value_of u.id) s ≡ some s'
      → (t : Table) (j : Bytes) → (table_beq users t && bytes_beq (value_of u.id) j) ≡ false
      → law.stored s' t j ≡ law.stored s t j
  stored_elsewhere u s s' f t j off =
      law.stored_update users (update_columns u) (update_args u) (value_of u.id) s s'
        (has_column-update_columns u) f t j
      ∙ rw off refl
