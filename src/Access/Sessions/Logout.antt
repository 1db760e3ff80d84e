-- ===== src/Access/Sessions/Logout.antt =====
-- What a logout is worth, whatever happens after it.
use cppadmin.Base.{
  ◌≤◌, ◌≡◌, ◌≢◌, refl, ap, sym, ◌∙◌, Bytes, bytes, Bool, true, false, [], Option, some, arith,
  Bool-cases, inl, inr, ltb, is_empty, is_empty_lem, starts_with, bytes_eq, if◌then◌else◌,
}
use cppadmin.Jwt.Library.{Library}
use cppadmin.Jwt.Token.{VerifyResult, verify}
use cppadmin.Access.Authentication.{
  Request, accept_web, pass_api, pass_web, login_page, bearer, auth_filter,
}
use cppadmin.Access.Sessions.{Sessions, is_blacklisted, post_logout, Reach}
use cppadmin.Access.Sessions.Steady.{verify-IsSteady}
use cppadmin.Access.Sessions.Revoked.{
  HasExpiry, is_blacklisted_lem, first-IsRevoked, Reach-IsRevoked,
}

-- The answers of the table at a state.
abbrev pub asks : Sessions → Bytes → Option Bool
asks t jti = some (is_blacklisted jti t.now t.revoked)

module _ (lib : Library) (secret : Bytes) (t : Sessions) (req : Request) where
  reply :
      (r : VerifyResult) (gone : Bool)
      → accept_web lib secret (asks t) r (some gone)
        ≡ (if gone then login_page else pass_web r.sub r.roles)
  reply r true = refl
  reply r false = refl

  pub filter-page :
      (r : VerifyResult) (gone : Bool)
      → starts_with req.path (bytes "/api/") ≡ false
      → req.cookie ≢ []
      → verify lib req.cookie secret t.now ≡ r
      → r.valid ≡ true
      → r.jti ≢ []
      → is_blacklisted r.jti t.now t.revoked ≡ gone
      → auth_filter lib secret (asks t) req t.now
        ≡ (if gone then login_page else pass_web r.sub r.roles)
  unfolding auth_filter
  filter-page r gone page some_cookie same valid some_id answer =
      rw
        (page, is_empty_lem req.cookie some_cookie, same, valid, is_empty_lem r.jti some_id, answer)
        (reply (record r { valid = true }) gone)

  pub filter-refused :
      starts_with req.path (bytes "/api/") ≡ false
      → (verify lib req.cookie secret t.now).valid ≡ false
      → auth_filter lib secret (asks t) req t.now ≡ login_page
  unfolding auth_filter
  filter-refused page bad = elim (Bool-cases (is_empty req.cookie)) [
    | inl empty ↦ rw (page, empty) refl
    | inr given ↦ rw (page, given, bad) refl
  ]

  filter-api :
      (r : VerifyResult) (token : Bytes)
      → starts_with req.path (bytes "/api/") ≡ true
      → bearer req.authorization ≡ token
      → token ≢ []
      → verify lib token secret t.now ≡ r
      → r.valid ≡ true
      → auth_filter lib secret (asks t) req t.now ≡ pass_api r.sub token
  unfolding auth_filter
  filter-api r token api the_bearer some_token same valid =
      rw (api, the_bearer, is_empty_lem token some_token, same, valid) refl

-- A user whose valid token has an id and an expiry logs out, and the database answers. Then, after
-- any time and any further logouts, that cookie is sent to the login page by every page, except
-- in the one second in which the token expires, when the row no longer counts but the token still
-- does; and as a bearer token it opens the API until it expires. Rows of the id, if there were
-- any, had the token's own expiry.
pub post_logout-Reach :
    (lib : Library) (secret token : Bytes) (s t : Sessions) (page api : Request)
    → (verify lib token secret s.now).valid ≡ true
    → (verify lib token secret s.now).jti ≢ []
    → (verify lib token secret s.now).exp ≢ 0
    → token ≢ []
    → HasExpiry (verify lib token secret s.now).jti (verify lib token secret s.now).exp s.revoked
    → Reach lib secret (post_logout lib secret token true s) t
    → page.cookie ≡ token
    → starts_with page.path (bytes "/api/") ≡ false
    → bearer api.authorization ≡ token
    → starts_with api.path (bytes "/api/") ≡ true
    → (t.now ≢ (verify lib token secret s.now).exp
        → auth_filter lib secret (asks t) page t.now ≡ login_page)
      × ((t.now ≡ (verify lib token secret s.now).exp
            → auth_filter lib secret (asks t) page t.now
              ≡ pass_web (verify lib token secret s.now).sub (verify lib token secret s.now).roles)
          × (t.now ≤ (verify lib token secret s.now).exp
              → auth_filter lib secret (asks t) api t.now
                ≡ pass_api (verify lib token secret s.now).sub token))
post_logout-Reach lib secret token s t page api valid some_id expires some_token expiry reach cookie
      no_api the_bearer is_api =
    let r = verify lib token secret s.now in
    let (alive, dead) = verify-IsSteady lib secret s.now t.now token valid expires in
    let (found, all) =
      Reach-IsRevoked lib secret r.jti r.exp reach
        (first-IsRevoked lib secret token s valid some_id some_token expiry) in
    let answer : is_blacklisted r.jti t.now t.revoked ≡ ltb t.now r.exp =
      is_blacklisted_lem r.jti r.exp t.now t.revoked all ∙ rw found refl in
    let some_cookie : page.cookie ≢ [] = λ e. some_token (sym cookie ∙ e) in
    let reads : verify lib page.cookie secret t.now ≡ verify lib token secret t.now =
      ap (λ k. verify lib k secret t.now) cookie in
    let with_row = λ (p : t.now ≤ r.exp).
      filter-page lib secret t page r (ltb t.now r.exp) no_api some_cookie (reads ∙ alive p) valid
        some_id answer in
    (
      λ other. elim (Bool-cases (ltb t.now r.exp)) [
        | inl before ↦
            with_row (ground arith)
            ∙ ap (λ b. if b then login_page else pass_web r.sub r.roles) before
        | inr not_before ↦
            filter-refused lib secret t page no_api (ap (λ k. k.valid) reads ∙ dead (ground arith))
      ],
      (
        λ same.
            let over : ltb t.now r.exp ≡ false = ground arith in
            with_row (omega (arith, same))
            ∙ ap (λ b. if b then login_page else pass_web r.sub r.roles) over,
        λ p. filter-api lib secret t api r token is_api the_bearer some_token (alive p) valid,
      ),
    )
