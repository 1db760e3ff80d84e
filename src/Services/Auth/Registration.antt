-- ===== src/Services/Auth/Registration.antt =====
-- What a registration stores.
use cppadmin.Base.{
  ℕ, ◌≡◌, ◌≢◌, ◌⊎◌, refl, sym, ap, ◌∙◌, Bytes, bytes, false, [], ◌∷◌, some, arith, Option-cases,
  inl, inr, bytes_beq, bytes_beq_refl, bytes_eq, ◌&&◌,
}
use cppadmin.Error.{Error, other, conflict_error}
use cppadmin.Error.Effect.{ok, err}
use cppadmin.Database.{Database}
use cppadmin.Database.Schema.{
  Table, Row, Value, users, text, assign, empty_row, column_beq, is_text, table_beq,
}
use cppadmin.Database.Schema
use cppadmin.Database.Laws.{IsRelational}
use cppadmin.Models.Users.{Users, from_row, insert_columns, output_args}
use cppadmin.Models.Users.Laws.{from_row-insert}
use cppadmin.Models.Field.{value_of}
use cppadmin.Jwt.Library.{Library}
use cppadmin.Services.Bcrypt.{Bcrypt}
use cppadmin.Services.Auth.{RegisterInput, Config, registered, register_user, login}
use cppadmin.Services.UserRows.{
  row_of, HasUniqueEmails, stored_inserted, inserted-HasUniqueEmails, stored_inserted-cases,
}
use cppadmin.Services.Auth.Login.{IsRefused, login-cases}

module _ (db : Database) (bc : Bcrypt) where
  -- The four outcomes of a registration.
  pub register_user-cases :
      (uuid code_uuid salt : Bytes) (input : RegisterInput) (s : db.State)
      → ((s' : db.State) × (db.find_by users Schema.email input.email s ≡ some [])
          × (db.insert users insert_columns
                (output_args (registered db bc uuid code_uuid salt input))
                s
              ≡ some s')
          × (register_user db bc uuid code_uuid salt input s
              ≡ (ok (registered db bc uuid code_uuid salt input), s')))
        ⊎ ((e : Error) × (register_user db bc uuid code_uuid salt input s ≡ (err e, s)))
  unfolding register_user
  register_user-cases uuid code_uuid salt input s =
      elim (Option-cases (db.find_by users Schema.email input.email s)) [
        | inl e ↦ inr (other, ground arith)
        | inr (row ∷ rows, e) ↦ inr (conflict_error "Email already exists.", ground arith)
        | inr ([], e) ↦
            elim (Option-cases (
              db.insert users insert_columns
                (output_args (registered db bc uuid code_uuid salt input)) s)) [
                  | inl f ↦ inr (other, ground arith)
                  | inr (s', f) ↦ inl (s', e, f, ground arith)
                ]
      ]

  module _ (law : IsRelational db) where
    -- On a relational database, a registration that succeeds stores the new object under its
    -- id, from which it can be read back, and changes no other row.
    pub register_user-stored :
        (uuid code_uuid salt : Bytes) (input : RegisterInput) (s : db.State) (u : Users)
        → (register_user db bc uuid code_uuid salt input s).0 ≡ ok u
        → (law.stored (register_user db bc uuid code_uuid salt input s).1 users uuid
            ≡ some (row_of u))
          × (from_row (row_of u) ≡ u)
          × ((t : Table) (j : Bytes)
              → (table_beq users t && bytes_beq uuid j) ≡ false
              → law.stored (register_user db bc uuid code_uuid salt input s).1 t j
                ≡ law.stored s t j)
    unfolding registered
    register_user-stored uuid code_uuid salt input s u h =
        elim (register_user-cases uuid code_uuid salt input s) [
          | inr (e, f) ↦ absurd (ground arith)
          | inl (s', e, f, g) ↦
              let made = registered db bc uuid code_uuid salt input in
              let same : u ≡ made = ground arith in
              let new = stored_inserted db law made uuid s s' refl f in
              rw (same, g)
                (
                  new users uuid ∙ rw (bytes_beq_refl uuid) refl,
                  from_row-insert made,
                  λ t j off. new t j ∙ rw off refl,
                )
        ]

    -- Whoever has an email that is taken cannot register: the database stays as it is.
    pub register_user-taken :
        (uuid code_uuid salt : Bytes) (input : RegisterInput) (s : db.State) (i : Bytes) (r : Row)
        → law.stored s users i ≡ some r
        → r Schema.email ≡ some (text input.email)
        → (e : Error) × (register_user db bc uuid code_uuid salt input s ≡ (err e, s))
    register_user-taken uuid code_uuid salt input s i r there same =
        elim (register_user-cases uuid code_uuid salt input s) [
          | inr refused ↦ refused
          | inl (s', e, f, g) ↦
              absurd (law.find_by_complete users Schema.email input.email s i r e there same)
        ]

    -- On a relational database, every registration keeps the emails unique.
    pub register_user-HasUniqueEmails :
        (uuid code_uuid salt : Bytes) (input : RegisterInput) (s : db.State)
        → HasUniqueEmails db law s
        → HasUniqueEmails db law (register_user db bc uuid code_uuid salt input s).1
    unfolding registered
    register_user-HasUniqueEmails uuid code_uuid salt input s unique =
        elim (register_user-cases uuid code_uuid salt input s) [
          | inr (e, f) ↦ rw f unique
          | inl (s', e, f, g) ↦ rw g (
              inserted-HasUniqueEmails db law (registered db bc uuid code_uuid salt input) uuid
                input.email s s' refl refl e f unique)
        ]

    status_inactive : bytes "active" ≢ bytes "Active"
    unfolding bytes
    status_inactive h = absurd (ground arith)

    -- A user who has just registered is refused by the login, with any password: the status
    -- that is stored is not the status that the login asks for.
    pub register_user-login :
        (lib : Library) (cfg : Config) (uuid code_uuid salt : Bytes) (input : RegisterInput)
        (s : db.State) (u : Users)
        → (register_user db bc uuid code_uuid salt input s).0 ≡ ok u
        → (password : Bytes) (now : ℕ)
        → IsRefused db bc lib cfg
            (login db bc lib cfg input.email password now
              (register_user db bc uuid code_uuid salt input s).1).0
    unfolding registered
    register_user-login lib cfg uuid code_uuid salt input s u h password now =
        elim (register_user-cases uuid code_uuid salt input s) [
          | inr (e, f) ↦ absurd (ground arith)
          | inl (s', e, f, g) ↦ rw g (elim (login-cases db bc lib cfg input.email password now s') [
            | inr (refused, _) ↦ refused
            | inl (row, rows, e', may, f') ↦
                let made = registered db bc uuid code_uuid salt input in
                let ((same, (i, there)), _) =
                  law.find_by_sound users Schema.email input.email s' (row ∷ rows) e' in
                elim (stored_inserted-cases db law made uuid s s' refl f i row there) [
                  | inr old ↦
                      absurd
                        (law.find_by_complete users Schema.email input.email s i row e old same)
                  | inl (_, new) ↦ absurd (
                      status_inactive (
                        sym (ap (λ (v : Users). value_of v.status) (from_row-insert made))
                        ∙ (ap (λ (r : Row). value_of (from_row r).status) new ∙ may.is_active)))
                ]
          ])
        ]
