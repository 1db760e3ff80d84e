-- ===== src/Access/Csrf/Tests.antt =====
-- A form of a logged-in user, posted with the token of the session.
use cppadmin.Base.{
  ℕ, ◌≡◌, ◌≢◌, ◌↔◌, refl, Bytes, bytes, bytes_beq, starts_with, [], ◌∷◌, ◌++◌, true, false, arith,
  is_empty,
}
use cppadmin.Jwt.Library.{Object, get, text, number}
use cppadmin.Jwt.Library.Unary.{unary, unary_laws}
use cppadmin.Jwt.Base64.{base64_url_encode, encode_groups, to_url, drop_padding, enc}
use cppadmin.Jwt.Token.{sign, verify}
use cppadmin.Jwt.Token.Laws.{verify-sign_iff}
use cppadmin.Access.Authentication.{post}
use cppadmin.Access.Csrf.{
  Request, pass, csrf_filter, extract_token, generate_token, hmac_csrf_token, has_session,
}
use cppadmin.Access.Csrf.Laws.{csrf_filter_iff}

abbrev payload : Object
payload =
    (bytes "sub", text (7 ∷ [])) ∷ (bytes "jti", text (9 ∷ [])) ∷ (bytes "exp", number 100) ∷ []

abbrev token : Bytes
token = sign unary payload (1 ∷ [])

abbrev request : Request
request = record {
  method = post;
  path = [];
  cookie = token;
  body_token = 3 ∷ [];
  query = [];
  header_token = [];
  client_ip = [];
  user_agent = [];
}

append_some : (s t : Bytes) (c : ℕ) → is_empty (s ++ (c ∷ t)) ≡ false
append_some [] t c = refl
append_some (x ∷ s) t c = refl

token_some : is_empty token ≡ false
unfolding sign
token_some = append_some _ _ 46

not_api : starts_with [] (bytes "/api/") ≡ false
unfolding starts_with bytes
not_api = refl

session : has_session unary (1 ∷ []) request 50 ≡ true
unfolding get bytes bytes_beq unary
session =
    let (valid, rest) =
      verify-sign_iff unary unary_laws payload (1 ∷ []) (7 ∷ []) 100 50 refl
        (λ h. absurd (ground arith)) refl (omega arith) in
    let (sub, exp, jti, _, _, _) = rest (omega arith) in
    rw (token_some, valid.1 (omega arith), jti) refl

hmac_some : (jti : Bytes) → hmac_csrf_token unary (1 ∷ []) jti ≢ []
unfolding hmac_csrf_token base64_url_encode unary bytes encode_groups drop_padding to_url enc
hmac_some jti h = absurd (ground arith)

csrf_filter_example :
    (csrf_filter unary (1 ∷ []) request 50 ≡ pass)
    ↔ (extract_token request ≡ generate_token unary (1 ∷ []) request 50)
csrf_filter_example =
    csrf_filter_iff unary (1 ∷ []) request 50 refl not_api session
      (hmac_some (verify unary token (1 ∷ []) 50).jti)
