-- ===== src/Access/Sessions/Tests.antt =====
-- A login and a logout of the user 7, and what the filter answers ten seconds later.
use cppadmin.Base.{
  ◌+◌, ◌<◌, ℕ, ◌≤◌, ◌≡◌, ◌≢◌, refl, Bytes, bytes, bytes_beq, List, Bool-cases, inl, inr, not, ◌&&◌,
  starts_with, [], ◌∷◌, ◌++◌, true, false, arith, is_empty,
}
use cppadmin.Jwt.Library.{Object, get, text, number}
use cppadmin.Jwt.Library.Unary.{unary, unary_laws}
use cppadmin.Jwt.Token.{sign, verify}
use cppadmin.Jwt.Token.Laws.{verify-sign_iff}
use cppadmin.Access.Authentication.{Request, login_page, pass_api, pass_web, bearer, auth_filter}
use cppadmin.Access.Sessions.{
  issue_web_jwt, Sessions, post_logout, blacklist, is_blacklisted, Reach, here, next, wait,
}
use cppadmin.Access.Sessions.Issue.{issue_web_jwt-auth_filter}
use cppadmin.Access.Sessions.Logout.{asks, post_logout-Reach}
use cppadmin.Access.Sessions.Refinement.{revocations, revoke, is_revoked, IsKeyed, blacklist-revoke}

abbrev payload : Object
payload =
    (bytes "sub", text (7 ∷ [])) ∷ (bytes "jti", text (9 ∷ [])) ∷ (bytes "exp", number 100) ∷ []

abbrev token : Bytes
token = sign unary payload (1 ∷ [])

checked :
    ((verify unary token (1 ∷ []) 50).valid ≡ true)
    × ((verify unary token (1 ∷ []) 50).exp ≡ 100)
    × ((verify unary token (1 ∷ []) 50).jti ≡ 9 ∷ [])
unfolding get bytes bytes_beq unary
checked =
    let (valid, rest) =
      verify-sign_iff unary unary_laws payload (1 ∷ []) (7 ∷ []) 100 50 refl
        (λ h. absurd (ground arith)) refl (omega arith) in
    let (sub, exp, jti, _, _, _) = rest (omega arith) in (valid.1 (omega arith), exp, jti)

abbrev before : Sessions
before = record { now = 50; revoked = [] }

abbrev after : Sessions
after = record (post_logout unary (1 ∷ []) token true before) { now = 60 }

now-post_logout : (s : Sessions) → (post_logout unary (1 ∷ []) token true s).now ≡ s.now
unfolding post_logout
now-post_logout s =
    let result = verify unary token (1 ∷ []) s.now in
    elim (Bool-cases
      (not (is_empty token) && (result.valid && (not (is_empty result.jti) && true)))) [
        | inl goes ↦ rw goes refl
        | inr stays ↦ rw stays refl
      ]

reached : Reach unary (1 ∷ []) (post_logout unary (1 ∷ []) token true before) after
reached = next (wait 60 (let same = now-post_logout before in omega (arith, same))) here

abbrev page : Request
page = record { path = []; authorization = []; cookie = token }

abbrev api : Request
api = record { path = bytes "/api/v1"; authorization = bytes "Bearer " ++ token; cookie = [] }

is_api : starts_with (bytes "/api/v1") (bytes "/api/") ≡ true
unfolding starts_with bytes
is_api = refl

the_bearer : bearer (bytes "Bearer " ++ token) ≡ token
unfolding starts_with bytes
the_bearer = refl

is_page : starts_with [] (bytes "/api/") ≡ false
unfolding starts_with bytes
is_page = refl

append_filled : (s t : Bytes) (c : ℕ) → s ++ (c ∷ t) ≢ []
append_filled [] t c = λ e. absurd (cc e)
append_filled (x ∷ s) t c = λ e. absurd (cc e)

token_filled : token ≢ []
unfolding sign
token_filled = append_filled _ _ 46

post_logout-Reach_example :
    (60 ≢ (verify unary token (1 ∷ []) 50).exp
      → auth_filter unary (1 ∷ []) (asks after) page 60 ≡ login_page)
    × ((60 ≡ (verify unary token (1 ∷ []) 50).exp
          → auth_filter unary (1 ∷ []) (asks after) page 60
            ≡ pass_web (verify unary token (1 ∷ []) 50).sub (verify unary token (1 ∷ []) 50).roles)
        × (60 ≤ (verify unary token (1 ∷ []) 50).exp
            → auth_filter unary (1 ∷ []) (asks after) api 60
              ≡ pass_api (verify unary token (1 ∷ []) 50).sub token))
post_logout-Reach_example =
    post_logout-Reach unary (1 ∷ []) token before after page api checked.0
      (λ e. absurd (let (valid, exp, jti) = checked in cc (e, jti)))
      (λ e. absurd (let (valid, exp, jti) = checked in omega arith)) token_filled tt reached refl
      is_page the_bearer is_api

abbrev one_row : List (Bytes × ℕ)
one_row = ((1 ∷ []), 5) ∷ []

blacklist-revoke_example :
    IsKeyed (blacklist (2 ∷ []) 8 one_row)
    × ((revocations (blacklist (2 ∷ []) 8 one_row) (2 ∷ [])
          ≡ revoke (2 ∷ []) 8 (revocations one_row) (2 ∷ []))
        × (is_blacklisted (2 ∷ []) 7 (blacklist (2 ∷ []) 8 one_row)
            ≡ is_revoked 7 (revoke (2 ∷ []) 8 (revocations one_row) (2 ∷ []))))
blacklist-revoke_example = blacklist-revoke (2 ∷ []) 8 one_row (2 ∷ []) 7 (refl, tt)

abbrev later : Sessions
later = record { now = 60; revoked = [] }

abbrev cookie_token : Bytes
cookie_token = issue_web_jwt unary (1 ∷ []) (7 ∷ []) [] (bytes "[]") (9 ∷ []) 50 50

abbrev with_cookie : Request
with_cookie = record { path = []; authorization = []; cookie = cookie_token }

free : is_blacklisted (9 ∷ []) 60 [] ≡ false
unfolding is_blacklisted
free = refl

issue_web_jwt-auth_filter_example :
    (60 ≤ 50 + 50
      → auth_filter unary (1 ∷ []) (asks later) with_cookie 60 ≡ pass_web (7 ∷ []) (bytes "[]"))
    × (50 + 50 < 60 → auth_filter unary (1 ∷ []) (asks later) with_cookie 60 ≡ login_page)
issue_web_jwt-auth_filter_example =
    issue_web_jwt-auth_filter unary unary_laws (1 ∷ []) (7 ∷ []) [] (bytes "[]") (9 ∷ []) 50 50
      later with_cookie (λ h. absurd (ground arith)) (λ h. absurd (ground arith)) (omega arith) free
      refl is_page
