-- ===== src/Services/Auth/Login.antt =====
-- Who can log in, and what the token of a login is good for.
use cppadmin.Base.{
  ℕ, ◌+◌, ◌≡◌, ◌≢◌, ◌↔◌, ◌⊎◌, ◌≤◌, ◌<◌, refl, Bytes, bytes, true, false, List, [], ◌∷◌, some, arith,
  Option-cases, Bool-cases, inl, inr, bytes_beq, bytes_beq_iff, ◌==◌, bytes_eq, subst,
}
use cppadmin.Error.{app}
use cppadmin.Error.Effect.{Result, ok, err}
use cppadmin.Database.{Database}
use cppadmin.Database.Schema.{Row, users, text}
use cppadmin.Database.Schema
use cppadmin.Database.Laws.{IsRelational}
use cppadmin.Models.Users.{Users, from_row}
use cppadmin.Jwt.Library.{Claim, Library, IsLawful, get}
use cppadmin.Jwt.Token.{verify}
use cppadmin.Jwt.Token.Laws.{verify-sign_iff}
use cppadmin.Models.Field.{value_of, flag_value_of}
use cppadmin.Services.Bcrypt.{Bcrypt}
use cppadmin.Services.Auth.{LoginResult, Config, issue_jwt, claims, admit, login}

module _ (db : Database) (bc : Bcrypt) (lib : Library) (cfg : Config) where
  -- The conditions under which a user is let in.
  pub record MayEnter (password : Bytes) (u : Users) : Type 0 where
    pub password_verified : bc.verify password (value_of u.password) ≡ true
    pub is_active : value_of u.status ≡ bytes "Active"
    pub not_blocked : flag_value_of u.blocked ≡ false

  abbrev pub result_for : ℕ → Users → LoginResult
  result_for now u = record {
    user = u;
    jwt_token = issue_jwt lib cfg (value_of u.id) (value_of u.email) now;
  }

  admit_ok :
      (password : Bytes) (now : ℕ) (u : Users) (s : db.State)
      → MayEnter password u
      → admit db bc lib cfg password now u s ≡ (ok (result_for now u), s)
  unfolding admit
  admit_ok password now u s h =
      rw
        (
          h.password_verified,
          (bytes_beq_iff (value_of u.status) (bytes "Active")).1 h.is_active,
          h.not_blocked,
        )
        refl

  abbrev pub IsRefused : Result LoginResult → Type 0
  IsRefused r = (msg : Bytes) × (r ≡ err (app msg 401))

  admit-cases :
      (password : Bytes) (now : ℕ) (u : Users) (s : db.State)
      → (MayEnter password u × (admit db bc lib cfg password now u s ≡ (ok (result_for now u), s)))
        ⊎ (IsRefused (admit db bc lib cfg password now u s).0
            × ((admit db bc lib cfg password now u s).1 ≡ s))
  unfolding admit
  admit-cases password now u s = elim (Bool-cases (bc.verify password (value_of u.password))) [
    | inr e ↦ inr (rw e ((_, refl), refl))
    | inl e ↦ elim (Bool-cases (value_of u.status == bytes "Active")) [
      | inr f ↦ inr (rw (e, f) ((_, refl), refl))
      | inl f ↦ elim (Bool-cases (flag_value_of u.blocked)) [
        | inl g ↦ inr (rw (e, f, g) ((_, refl), refl))
        | inr g ↦ inl (
          record {
            password_verified = e;
            is_active = (bytes_beq_iff (value_of u.status) (bytes "Active")).0 f;
            not_blocked = g;
          },
          rw (e, f, g) refl,
        )
      ]
    ]
  ]

  -- A login lets the user of the first row with the email in, who verified the password, is
  -- active and is not blocked, or it is refused with status 401. It leaves the database alone.
  pub login-cases :
      (email password : Bytes) (now : ℕ) (s : db.State)
      → ((row : Row) × (rows : List Row) × (db.find_by users Schema.email email s
            ≡ some (row ∷ rows))
          × MayEnter password (from_row row)
          × (login db bc lib cfg email password now s ≡ (ok (result_for now (from_row row)), s)))
        ⊎ (IsRefused (login db bc lib cfg email password now s).0
            × ((login db bc lib cfg email password now s).1 ≡ s))
  unfolding login
  login-cases email password now s = elim (Option-cases (db.find_by users Schema.email email s)) [
    | inl e ↦ inr (rw e ((_, refl), refl))
    | inr ([], e) ↦ inr (rw e ((_, refl), refl))
    | inr (row ∷ rows, e) ↦ elim (admit-cases password now (from_row row) s) [
      | inl (h, f) ↦ inl (row, rows, e, h, rw e f)
      | inr (h, f) ↦ inr (rw e h, rw e f)
    ]
  ]

  -- On a relational database, whoever logs in is stored with that email, verified the password,
  -- is active and not blocked.
  pub login_sound :
      (law : IsRelational db) (email password : Bytes) (now : ℕ) (s : db.State) (res : LoginResult)
      → (login db bc lib cfg email password now s).0 ≡ ok res
      → (i : Bytes) × (row : Row) × (law.stored s users i ≡ some row)
        × (row Schema.email ≡ some (text email))
        × (res.user ≡ from_row row)
        × MayEnter password (from_row row)
  login_sound law email password now s res h = elim (login-cases email password now s) [
    | inr ((msg, e), _) ↦ absurd (ground arith)
    | inl (row, rows, e, may, f) ↦
        let ((same, (i, there)), _) = law.find_by_sound users Schema.email email s (row ∷ rows) e in
        let user : res.user ≡ from_row row = ground arith in (i, row, there, same, user, may)
  ]

  claims_sub :
      (i e : Bytes) (now : ℕ) → get (bytes "sub") (claims lib cfg i e now) ≡ some (Claim.text i)
  unfolding claims get bytes bytes_beq
  claims_sub i e now = refl

  claims_exp :
      (i e : Bytes) (now : ℕ)
      → get (bytes "exp") (claims lib cfg i e now)
        ≡ some (Claim.number (now + cfg.jwt_expire_seconds))
  unfolding claims get bytes bytes_beq
  claims_exp i e now = refl

  -- The token of a login is accepted until the lifetime is over and no longer, and until then
  -- names the user who logged in, provided that this user has an id, the expiry is a positive
  -- time, and the libraries for MACs and JSON keep their laws.
  pub login-verify :
      IsLawful lib
      → (email password : Bytes) (now later : ℕ) (s : db.State) (res : LoginResult)
      → (login db bc lib cfg email password now s).0 ≡ ok res
      → value_of res.user.id ≢ []
      → 0 < now + cfg.jwt_expire_seconds
      → (((verify lib res.jwt_token cfg.jwt_secret later).valid ≡ true)
          ↔ (later ≤ now + cfg.jwt_expire_seconds))
        × (later ≤ now + cfg.jwt_expire_seconds
            → (verify lib res.jwt_token cfg.jwt_secret later).sub ≡ value_of res.user.id)
  unfolding issue_jwt
  login-verify law email password now later s res h named p =
      elim (login-cases email password now s) [
        | inr ((msg, e), _) ↦ absurd (ground arith)
        | inl (row, rows, e, may, f) ↦
            let same : res ≡ result_for now (from_row row) = ground arith in
            let u = from_row row in
            let (valid, names) =
              verify-sign_iff lib law (claims lib cfg (value_of u.id) (value_of u.email) now)
                cfg.jwt_secret (value_of u.id) (now + cfg.jwt_expire_seconds) later
                (claims_sub (value_of u.id) (value_of u.email) now)
                (subst (λ r. value_of r.user.id ≢ []) same named)
                (claims_exp (value_of u.id) (value_of u.email) now) p in
            rw same (valid, λ le. (names le).0)
      ]
