-- ===== src/Access/Csrf.antt =====
-- filters/CsrfFilter.cc.
pub mod Laws
pub mod Visitor
mod Tests
mod VisitorTests
use cppadmin.Base.{
  ℕ, zero, suc, ◌/◌, Bytes, bytes, Bool, true, false, not, ◌&&◌, ◌||◌, List, [], ◌∷◌, ◌++◌, drop,
  length, nat_beq, is_empty, starts_with, Option, none, some, ◌==◌, bytes_eq, bytes_beq,
  if◌then◌else◌,
}
use cppadmin.Jwt.Library.{Library}
use cppadmin.Jwt.Base64.{base64_url_encode}
use cppadmin.Jwt.Token.{VerifyResult, verify}
use cppadmin.Services.Auth.Otp.{decimal}
use cppadmin.Access.Authentication.{Method, get, head, options}

-- What the filter reads of a request: `body_token` is the form field "_csrf", `query` the query
-- text, `header_token` the header "x-csrf-token", `client_ip` the address of `clientIp`.
pub record Request : Type 0 where
  pub method : Method
  pub path : Bytes
  pub cookie : Bytes
  pub body_token : Bytes
  pub query : Bytes
  pub header_token : Bytes
  pub client_ip : Bytes
  pub user_agent : Bytes

pub data Outcome : Type 0 where
  pass : Outcome
  forbidden : Outcome

-- The text after the first occurrence of `key`.
unfoldable pub after_key : Bytes → Bytes → Option Bytes
after_key key [] = if is_empty key then some [] else none
after_key key (c ∷ s) =
    let rest = after_key key s in
    if starts_with (c ∷ s) key then some (drop (length key) (c ∷ s)) else rest

-- The text before the first `b`.
unfoldable pub until : ℕ → Bytes → Bytes
until b [] = []
until b (c ∷ s) = let rest = until b s in if nat_beq c b then [] else c ∷ rest

abbrev pub query_token : Option Bytes → Bytes
query_token none = []
query_token (some val) = until b'&' val

unfoldable pub extract_token : Request → Bytes
extract_token req =
    if not (is_empty req.body_token)
    then req.body_token
    else if not (is_empty (query_token (after_key (bytes "_csrf=") req.query)))
    then query_token (after_key (bytes "_csrf=") req.query)
    else req.header_token

-- `CRYPTO_memcmp` compares texts of one length.
unfoldable pub timing_safe_eq : Bytes → Bytes → Bool
timing_safe_eq a b =
    if is_empty a || (is_empty b || not (nat_beq (length a) (length b)))
    then false
    else bytes_beq a b

-- std::to_string(bucket - 1)
abbrev pub previous : ℕ → Bytes
previous zero = bytes "-1"
previous (suc n) = decimal n n

module _ (lib : Library) (secret : Bytes) where
  unfoldable pub hmac_csrf_token : Bytes → Bytes
  hmac_csrf_token jti = base64_url_encode (lib.hmac_sha256 secret (bytes "csrf:" ++ jti))

  unfoldable pub login_csrf_token : Bytes → Bytes → Bytes → Bytes
  login_csrf_token ip ua bucket =
      base64_url_encode
        (lib.hmac_sha256 secret (bytes "login-csrf:" ++ (ip ++ (b':' ∷ (ua ++ (b':' ∷ bucket))))))

  -- A session: a valid token in the cookie that has an id.
  abbrev pub has_session : Request → ℕ → Bool
  has_session req now =
      not (is_empty req.cookie)
      && ((verify lib req.cookie secret now).valid
          && not (is_empty (verify lib req.cookie secret now).jti))

  -- The token that a page gets, where none is cached in the request.
  unfoldable pub generate_token : Request → ℕ → Bytes
  generate_token req now =
      let bucket = now / 3600 in
      let fallback = login_csrf_token req.client_ip req.user_agent (decimal bucket bucket) in
      let session_token = hmac_csrf_token (verify lib req.cookie secret now).jti in
      if has_session req now && not (is_empty session_token) then session_token else fallback

  abbrev pub is_safe : Method → Bool
  is_safe get = true
  is_safe head = true
  is_safe options = true
  is_safe m = false

  abbrev pub compare : Request → ℕ → Bytes → Bool
  compare req now submitted =
      if has_session req now
      then timing_safe_eq (hmac_csrf_token (verify lib req.cookie secret now).jti) submitted
      else timing_safe_eq
          (login_csrf_token req.client_ip req.user_agent (decimal (now / 3600) (now / 3600)))
          submitted
        || timing_safe_eq (login_csrf_token req.client_ip req.user_agent (previous (now / 3600)))
            submitted

  unfoldable pub csrf_filter : Request → ℕ → Outcome
  csrf_filter req now =
      if is_safe req.method
      then pass
      else if starts_with req.path (bytes "/api/")
      then pass
      else if compare req now (extract_token req)
      then pass
      else forbidden
