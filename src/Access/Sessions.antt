-- ===== src/Access/Sessions.antt =====
-- include/helpers/JwtBlacklist.h and JwtCookieHelper.h, and the tokens of
-- controllers/web/v1/AuthWebController.cc: a cookie is handed out, a logout revokes its token. The
-- rows of `jwt_blacklist` are a list, of which the id is the primary key. An SQL time is the number
-- of seconds it stands for.
pub mod Steady
pub mod Revoked
pub mod Logout
pub mod Refinement
pub mod Issue
mod Tests
use cppadmin.Base.{
  ℕ, ◌+◌, Bytes, bytes, Bool, true, false, not, ◌&&◌, ◌||◌, List, [], ◌∷◌, ◌++◌, any, ltb, is_empty,
  ◌==◌, bytes_eq, bytes_beq, if◌then◌else◌, ◌≤◌,
}
use cppadmin.Jwt.Library.{Library, Object, text, number}
use cppadmin.Jwt.Token.{verify, sign}
use cppadmin.Services.Auth.Otp.{decimal}

-- The rows, each an id and its expiry, and the time.
pub record Sessions : Type 0 where
  pub now : ℕ
  pub revoked : List (Bytes × ℕ)

-- INSERT OR IGNORE
unfoldable pub blacklist : Bytes → ℕ → List (Bytes × ℕ) → List (Bytes × ℕ)
blacklist jti expires rows =
    if any (λ r. r.0 == jti) rows then rows else rows ++ ((jti, expires) ∷ [])

-- expires_at > datetime('now')
unfoldable pub is_blacklisted : Bytes → ℕ → List (Bytes × ℕ) → Bool
is_blacklisted jti now rows = any (λ r. r.0 == jti && ltb now r.1) rows

-- `uuid` is the new id of the token.
unfoldable pub web_claims : Bytes → Bytes → Bytes → Bytes → ℕ → ℕ → Object
web_claims user_id email roles uuid lifetime now =
    (bytes "sub", text user_id)
    ∷ (bytes "email", text email)
    ∷ (bytes "jti", text uuid)
    ∷ (bytes "roles", text roles)
    ∷ (bytes "iat", number now)
    ∷ (bytes "exp", number (now + lifetime))
    ∷ []

module _ (lib : Library) (secret : Bytes) where
  unfoldable pub issue_web_jwt : Bytes → Bytes → Bytes → Bytes → ℕ → ℕ → Bytes
  unfolding web_claims
  issue_web_jwt user_id email roles uuid lifetime now =
      sign lib (web_claims user_id email roles uuid lifetime now) secret

  -- What a logout does to the rows; `is_up` tells whether the database answers.
  unfoldable pub post_logout : Bytes → Bool → Sessions → Sessions
  unfolding blacklist
  post_logout token is_up s =
      let result = verify lib token secret s.now in
      if not (is_empty token) && (result.valid && (not (is_empty result.jti) && is_up))
      then record s { revoked = blacklist result.jti result.exp s.revoked }
      else s

  -- Time passes, and users log out. Logins and other requests leave the rows alone.
  pub data Step : Sessions → Sessions → Type 0 where
    wait : {s : Sessions} (later : ℕ) → s.now ≤ later → Step s (record s { now = later })
    logout : {s : Sessions} (token : Bytes) (is_up : Bool) → Step s (post_logout token is_up s)

  pub data Reach : Sessions → Sessions → Type 0 where
    here : {s : Sessions} → Reach s s
    next : {s t u : Sessions} → Step s t → Reach t u → Reach s u

-- The text of the header "Set-Cookie".
unfoldable pub set_cookie : Bytes → ℕ → Bool → Bytes
set_cookie token max_age is_production =
    bytes "auth_token="
    ++ (token
        ++ (bytes "; HttpOnly; Path=/; SameSite=Lax; Max-Age="
            ++ (decimal max_age max_age ++ (if is_production then bytes "; Secure" else []))))

abbrev pub cleared_cookie : Bytes
cleared_cookie = bytes "auth_token=; HttpOnly; Path=/; SameSite=Lax; Max-Age=0"
