-- ===== src/Access/Authentication/Tests.antt =====
-- A page request with a token of the user 7.
use cppadmin.Base.{
  ℕ, ◌≡◌, ◌≢◌, refl, Bytes, bytes, bytes_beq, starts_with, [], ◌∷◌, ◌++◌, Option, some, true, false,
  Bool, arith, is_empty,
}
use cppadmin.Jwt.Library.{Object, get, text, number}
use cppadmin.Jwt.Library.Unary.{unary, unary_laws}
use cppadmin.Jwt.Token.{sign, verify}
use cppadmin.Jwt.Token.Laws.{IsSigned, verify-sign_iff}
use cppadmin.Access.Authentication.{Request, pass_web, auth_filter}
use cppadmin.Access.Authentication.Laws.{auth_filter-pass_web}

abbrev payload : Object
payload =
    (bytes "sub", text (7 ∷ [])) ∷ (bytes "jti", text (9 ∷ [])) ∷ (bytes "exp", number 100) ∷ []

abbrev token : Bytes
token = sign unary payload (1 ∷ [])

checked :
    ((verify unary token (1 ∷ []) 50).valid ≡ true)
    × ((verify unary token (1 ∷ []) 50).sub ≡ 7 ∷ [])
    × ((verify unary token (1 ∷ []) 50).jti ≡ 9 ∷ [])
unfolding get bytes bytes_beq unary
checked =
    let (valid, rest) =
      verify-sign_iff unary unary_laws payload (1 ∷ []) (7 ∷ []) 100 50 refl
        (λ h. absurd (ground arith)) refl (omega arith) in
    let (sub, exp, jti, _, _, _) = rest (omega arith) in (valid.1 (omega arith), sub, jti)

abbrev nothing_revoked : Bytes → Option Bool
nothing_revoked jti = some false

abbrev page_request : Request
page_request = record { path = []; authorization = []; cookie = token }

is_page : starts_with [] (bytes "/api/") ≡ false
unfolding starts_with bytes
is_page = refl

append_some : (s t : Bytes) (c : ℕ) → is_empty (s ++ (c ∷ t)) ≡ false
append_some [] t c = refl
append_some (x ∷ s) t c = refl

token_some : is_empty token ≡ false
unfolding sign
token_some = append_some _ _ 46

passed_web :
    auth_filter unary (1 ∷ []) nothing_revoked page_request 50
    ≡ pass_web (7 ∷ []) (verify unary token (1 ∷ []) 50).roles
unfolding auth_filter
passed_web = let (valid, sub, jti) = checked in rw (is_page, token_some, valid, jti, sub) refl

abbrev user : Bytes
user = 7 ∷ []

auth_filter-pass_web_example :
    IsSigned unary token (1 ∷ []) 50
    × (user ≡ (verify unary token (1 ∷ []) 50).sub)
    × (user ≢ [])
    × ((verify unary token (1 ∷ []) 50).jti ≢ [])
    × (nothing_revoked (verify unary token (1 ∷ []) 50).jti ≢ some true)
auth_filter-pass_web_example =
    auth_filter-pass_web unary (1 ∷ []) nothing_revoked page_request 50 (7 ∷ [])
      (verify unary token (1 ∷ []) 50).roles passed_web
