-- ===== src/Services/Auth/Reset.antt =====
-- What a password reset asks for and what it changes.
use cppadmin.Base.{
  ℕ, ◌+◌, ◌*◌, ◌≡◌, ◌≢◌, ◌⊎◌, ◌≤◌, refl, ◌∙◌, Bytes, true, false, List, [], ◌∷◌, Option, none, some,
  map, arith, Option-cases, Bool-cases, inl, inr,
}
use cppadmin.Error.{Error, other, validation_error}
use cppadmin.Error.Effect.{ok, err, writes-some, writes-none}
use cppadmin.Database.{Database}
use cppadmin.Database.Schema.{Table, Row, users, text, table_beq}
use cppadmin.Database.Schema
use cppadmin.Database.Laws.{IsRelational}
use cppadmin.Models.Field.{value_of, or_else_self}
use cppadmin.Models.Users.{Users, from_row, update_columns, update_args}
use cppadmin.Services.Bcrypt.{Bcrypt, IsBcrypt, default_rounds}
use cppadmin.Services.Auth.{
  ResetProcessInput, Config, otp_refused, has_expired, with_password, process_for,
  process_password_reset, with_otp, request_password_reset,
}
use cppadmin.Services.Auth.Otp.{generate_otp}
use cppadmin.Services.UserRows.{update_user, from_row-id, stored_updated}

module _ (db : Database) (bc : Bcrypt) where
  -- An OTP that was stored for the user and has not expired.
  pub record IsUsableOtp (otp : Bytes) (now : ℕ) (u : Users) : Type 0 where
    pub stored_otp : Bytes
    pub is_stored : u.password_otp ≡ some stored_otp
    pub is_some : stored_otp ≢ []
    pub is_verified : bc.verify otp stored_otp ≡ true
    pub expires : ℕ
    pub expires_stored : u.password_otp_expires ≡ some expires
    pub in_time : now ≤ expires

  otp_accepted :
      (o : Option Bytes) (otp : Bytes)
      → otp_refused db bc o otp ≡ false
      → (h : Bytes) × (o ≡ some h) × (h ≢ []) × (bc.verify otp h ≡ true)
  otp_accepted none otp e = absurd (ground arith)
  otp_accepted (some h) otp e = (h, refl, ground arith, ground arith)

  not_expired :
      (x : Option ℕ) (now : ℕ)
      → has_expired db bc x now ≡ false
      → (exp : ℕ) × (x ≡ some exp) × (now ≤ exp)
  not_expired none now e = absurd (ground arith)
  not_expired (some exp) now e = (exp, refl, ground arith)

  -- The update of the user leads from the first state to the second.
  abbrev pub IsUpdated : Users → db.State → db.State → Type 0
  IsUpdated u s s' = db.update users (update_columns u) (update_args u) (value_of u.id) s ≡ some s'

  update_user-ok :
      (u : Users) (s s' : db.State) → IsUpdated u s s' → update_user db u s ≡ (ok tt, s')
  update_user-ok u s s' e =
      writes-some (db.update users (update_columns u) (update_args u) (value_of u.id)) s s' e

  update_user-none :
      (u : Users) (s : db.State)
      → db.update users (update_columns u) (update_args u) (value_of u.id) s ≡ none
      → update_user db u s ≡ (err other, s)
  update_user-none u s e =
      writes-none (db.update users (update_columns u) (update_args u) (value_of u.id)) s e

  process_for-cases :
      (salt : Bytes) (now : ℕ) (input : ResetProcessInput) (u : Users) (rows : List Users)
      (s : db.State)
      → ((s' : db.State) × IsUsableOtp input.otp now u
          × IsUpdated (with_password db bc salt input.new_password u) s s'
          × (process_for db bc salt now input (u ∷ rows) s ≡ (ok tt, s')))
        ⊎ ((e : Error) × (process_for db bc salt now input (u ∷ rows) s ≡ (err e, s)))
  process_for-cases salt now input u rows s =
      let v = with_password db bc salt input.new_password u in
      elim (Bool-cases (otp_refused db bc u.password_otp input.otp)) [
        | inl e ↦ inr (validation_error "OTP is invalid.", rw e refl)
        | inr e ↦ elim (Bool-cases (has_expired db bc u.password_otp_expires now)) [
          | inl f ↦ inr (validation_error "OTP has expired.", rw (e, f) refl)
          | inr f ↦
              elim (Option-cases
                (db.update users (update_columns v) (update_args v) (value_of v.id) s)) [
                  | inl g ↦ inr (other, rw (e, f) (update_user-none v s g))
                  | inr (s', g) ↦
                      let (h, stored, full, verified) = otp_accepted u.password_otp input.otp e in
                      let (exp, expires, in_time) = not_expired u.password_otp_expires now f in
                      inl (
                        s',
                        record {
                          stored_otp = h;
                          is_stored = stored;
                          is_some = full;
                          is_verified = verified;
                          expires = exp;
                          expires_stored = expires;
                          in_time = in_time;
                        },
                        g,
                        rw (e, f) (update_user-ok v s s' g),
                      )
                ]
        ]
      ]

  -- A reset succeeds for the first user with the email, if the OTP is usable and the update
  -- succeeds; in every other case it throws and the database stays as it is.
  pub process_password_reset-cases :
      (salt : Bytes) (now : ℕ) (input : ResetProcessInput) (s : db.State)
      → ((row : Row) × (rows : List Row) × (s' : db.State) × (db.find_by users Schema.email
              input.email s
            ≡ some (row ∷ rows))
          × IsUsableOtp input.otp now (from_row row)
          × IsUpdated (with_password db bc salt input.new_password (from_row row)) s s'
          × (process_password_reset db bc salt now input s ≡ (ok tt, s')))
        ⊎ ((e : Error) × (process_password_reset db bc salt now input s ≡ (err e, s)))
  unfolding process_password_reset
  process_password_reset-cases salt now input s =
      elim (Option-cases (db.find_by users Schema.email input.email s)) [
        | inl e ↦ inr (other, ground arith)
        | inr ([], e) ↦ inr (validation_error "Email not found.", ground arith)
        | inr (row ∷ rows, e) ↦
            let step : process_password_reset db bc salt now input s
                ≡ process_for db bc salt now input (from_row row ∷ map from_row rows) s =
              ground arith in
            elim (process_for-cases salt now input (from_row row) (map from_row rows) s) [
              | inl (s', usable, updated, g) ↦ inl (row, rows, s', e, usable, updated, step ∙ g)
              | inr (x, g) ↦ inr (x, step ∙ g)
            ]
      ]

  module _ (law : IsRelational db) (hashes : IsBcrypt bc) where
    -- On a relational database with a hash that verifies, a reset that succeeds had a usable
    -- OTP and stores a hash of the new password for the user with the email; the OTP and its
    -- expiry are still there afterwards.
    pub process_password_reset_sound :
        (salt : Bytes) (now : ℕ) (input : ResetProcessInput) (s : db.State)
        → (process_password_reset db bc salt now input s).0 ≡ ok tt
        → (i : Bytes) × (row row' : Row) × (law.stored s users i ≡ some row)
          × (row Schema.email ≡ some (text input.email))
          × IsUsableOtp input.otp now (from_row row)
          × (law.stored (process_password_reset db bc salt now input s).1 users i ≡ some row')
          × (bc.verify input.new_password (value_of (from_row row').password) ≡ true)
          × ((from_row row').password_otp ≡ (from_row row).password_otp)
          × ((from_row row').password_otp_expires ≡ (from_row row).password_otp_expires)
    unfolding with_password
    process_password_reset_sound salt now input s h =
        elim (process_password_reset-cases salt now input s) [
          | inr (e, f) ↦ absurd (ground arith)
          | inl (row, rows, s', e, usable, updated, f) ↦
              let ((same, (i, there)), _) =
                law.find_by_sound users Schema.email input.email s (row ∷ rows) e in
              let v = with_password db bc salt input.new_password (from_row row) in
              let (row', there', merged) =
                stored_updated db law v i row s s' (from_row-id db law s i row there) there
                  updated in
              (
                i,
                row,
                row',
                there,
                same,
                usable,
                rw f there',
                rw merged (hashes.verify-hash default_rounds salt input.new_password),
                rw merged refl,
                rw merged refl,
              )
        ]

module _ (db : Database) (bc : Bcrypt) (cfg : Config) where
  abbrev otp_for : Bytes → ℕ → ℕ → Row → Users
  otp_for salt rnd now row = with_otp db bc cfg salt (generate_otp 6 rnd) now (from_row row)

  -- The three outcomes of a request: nobody has the email and nothing happens, the OTP is stored, or the
  -- database throws.
  pub request_password_reset-cases :
      (salt : Bytes) (rnd now : ℕ) (email : Bytes) (s : db.State)
      → (((db.find_by users Schema.email email s ≡ some [])
            × (request_password_reset db bc cfg salt rnd now email s ≡ (ok tt, s)))
          ⊎ ((row : Row) × (rows : List Row) × (s' : db.State) × (db.find_by users Schema.email
                  email s
                ≡ some (row ∷ rows))
              × IsUpdated db bc (otp_for salt rnd now row) s s'
              × (request_password_reset db bc cfg salt rnd now email s ≡ (ok tt, s'))))
        ⊎ (request_password_reset db bc cfg salt rnd now email s ≡ (err other, s))
  unfolding request_password_reset
  request_password_reset-cases salt rnd now email s =
      elim (Option-cases (db.find_by users Schema.email email s)) [
        | inl e ↦ inr (ground arith)
        | inr ([], e) ↦ inl (inl (e, ground arith))
        | inr (row ∷ rows, e) ↦
            let v = otp_for salt rnd now row in
            let step : request_password_reset db bc cfg salt rnd now email s ≡ update_user db v s =
              ground arith in
            elim (Option-cases
              (db.update users (update_columns v) (update_args v) (value_of v.id) s)) [
                | inl g ↦ inr (step ∙ update_user-none db bc v s g)
                | inr (s', g) ↦
                    inl (inr (row, rows, s', e, g, step ∙ update_user-ok db bc v s s' g))
              ]
      ]

  module _ (law : IsRelational db) (hashes : IsBcrypt bc) where
    -- On a relational database with a hash that verifies, for a stored email, a request that
    -- succeeds stores an OTP for a user with that email: the OTP is the generated one and
    -- usable until the minutes of the configuration are over.
    pub request_password_reset_sound :
        (salt : Bytes) (rnd now later : ℕ) (email j : Bytes) (r : Row) (s : db.State)
        → law.stored s users j ≡ some r
        → r Schema.email ≡ some (text email)
        → (request_password_reset db bc cfg salt rnd now email s).0 ≡ ok tt
        → later ≤ now + cfg.otp_expiry_minutes * 60
        → (i : Bytes) × (row row' : Row) × (law.stored s users i ≡ some row)
          × (row Schema.email ≡ some (text email))
          × (law.stored (request_password_reset db bc cfg salt rnd now email s).1 users i
              ≡ some row')
          × IsUsableOtp db bc (generate_otp 6 rnd) later (from_row row')
          × ((from_row row').password ≡ (from_row row).password)
    unfolding with_otp
    request_password_reset_sound salt rnd now later email j r s there_j same_j h le =
        elim (request_password_reset-cases salt rnd now email s) [
          | inr f ↦ absurd (ground arith)
          | inl (inl (e, f)) ↦
              absurd (law.find_by_complete users Schema.email email s j r e there_j same_j)
          | inl (inr (row, rows, s', e, updated, f)) ↦
              let ((same, (i, there)), _) =
                law.find_by_sound users Schema.email email s (row ∷ rows) e in
              let v = otp_for salt rnd now row in
              let (row', there', merged) =
                stored_updated db law v i row s s' (from_row-id db law s i row there) there
                  updated in
              (
                i,
                row,
                row',
                there,
                same,
                rw f there',
                record {
                  stored_otp = bc.hash cfg.bcrypt_rounds salt (generate_otp 6 rnd);
                  is_stored = rw merged refl;
                  is_some = hashes.hash_some cfg.bcrypt_rounds salt (generate_otp 6 rnd);
                  is_verified = hashes.verify-hash cfg.bcrypt_rounds salt (generate_otp 6 rnd);
                  expires = now + cfg.otp_expiry_minutes * 60;
                  expires_stored = rw merged refl;
                  in_time = le;
                },
                rw merged (or_else_self (from_row row).password),
              )
        ]
