-- ===== src/Access/Sessions/Issue.antt =====
-- A token that a login hands out opens the pages until it expires.
use cppadmin.Base.{
  ℕ, ◌+◌, ◌<◌, ◌≤◌, ◌≡◌, ◌≢◌, refl, ap, ◌∙◌, sym, Bytes, bytes, bytes_beq, bytes_eq, starts_with,
  [], ◌∷◌, ◌++◌, true, false, arith, some,
}
use cppadmin.Jwt.Library.{Library, IsLawful, Object, get, text, number}
use cppadmin.Jwt.Token.{sign, verify, examine}
use cppadmin.Jwt.Token.Laws.{verify-sign}
use cppadmin.Access.Authentication.{Request, pass_web, login_page, auth_filter}
use cppadmin.Access.Sessions.{Sessions, is_blacklisted, web_claims, issue_web_jwt}
use cppadmin.Access.Sessions.Logout.{asks, filter-page, filter-refused}

append_filled : (s t : Bytes) (c : ℕ) → s ++ (c ∷ t) ≢ []
append_filled [] t c = λ e. absurd (cc e)
append_filled (x ∷ s) t c = λ e. absurd (cc e)

sign_filled : (lib : Library) (payload : Object) (secret : Bytes) → sign lib payload secret ≢ []
unfolding sign
sign_filled lib payload secret = append_filled _ _ 46

module _ (lib : Library) (law : IsLawful lib) (secret user_id email roles uuid : Bytes)
    (lifetime now : ℕ) where
  get_claims :
      (get (bytes "sub") (web_claims user_id email roles uuid lifetime now) ≡ some (text user_id))
      × (get (bytes "jti") (web_claims user_id email roles uuid lifetime now) ≡ some (text uuid))
      × (get (bytes "roles") (web_claims user_id email roles uuid lifetime now) ≡ some (text roles))
      × (get (bytes "exp") (web_claims user_id email roles uuid lifetime now)
          ≡ some (number (now + lifetime)))
  unfolding web_claims get bytes bytes_beq
  get_claims = (refl, refl, refl, refl)

  abbrev pub token : Bytes
  token = issue_web_jwt lib secret user_id email roles uuid lifetime now

  verify-issued :
      (later : ℕ)
      → user_id ≢ []
      → 0 < now + lifetime
      → (later ≤ now + lifetime
          → ((verify lib token secret later).valid ≡ true)
            × ((verify lib token secret later).sub ≡ user_id)
            × ((verify lib token secret later).jti ≡ uuid)
            × ((verify lib token secret later).roles ≡ roles))
        × (now + lifetime < later → (verify lib token secret later).valid ≡ false)
  unfolding issue_web_jwt examine
  verify-issued later some_user p =
      let (sub, jti, role, exp) = get_claims in
      rw (verify-sign lib law (web_claims user_id email roles uuid lifetime now) secret later) (
        ground (
          arith,
          law.as_string-text user_id,
          law.as_string-text uuid,
          law.as_string-text roles,
          law.as_int64-number (now + lifetime),
        ))

  -- The cookie of a login is accepted by every page until the token expires and by none later, and
  -- gives the page the user and the roles of the login, if the id of the token has not been
  -- revoked, user and id are not empty, the expiry is a positive time, and the libraries for MACs
  -- and JSON keep their laws.
  pub issue_web_jwt-auth_filter :
      (t : Sessions) (page : Request)
      → user_id ≢ []
      → uuid ≢ []
      → 0 < now + lifetime
      → is_blacklisted uuid t.now t.revoked ≡ false
      → page.cookie ≡ token
      → starts_with page.path (bytes "/api/") ≡ false
      → (t.now ≤ now + lifetime
          → auth_filter lib secret (asks t) page t.now ≡ pass_web user_id roles)
        × (now + lifetime < t.now → auth_filter lib secret (asks t) page t.now ≡ login_page)
  unfolding issue_web_jwt
  issue_web_jwt-auth_filter t page some_user some_id p free cookie no_api =
      let (alive, dead) = verify-issued t.now some_user p in
      let reads : verify lib page.cookie secret t.now ≡ verify lib token secret t.now =
        ap (λ k. verify lib k secret t.now) cookie in
      (
        λ le.
            let (valid, sub, jti, role) = alive le in
            filter-page lib secret t page (verify lib token secret t.now) false no_api
              (λ e. sign_filled lib _ secret (sym cookie ∙ e)) reads valid
              (λ e. some_id (sym jti ∙ e)) (ap (λ j. is_blacklisted j t.now t.revoked) jti ∙ free)
            ∙ rw (sub, role) refl,
        λ gt. filter-refused lib secret t page no_api (ap (λ r. r.valid) reads ∙ dead gt),
      )
