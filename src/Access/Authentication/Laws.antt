-- ===== src/Access/Authentication/Laws.antt =====
-- What a request that passes the filter has shown.
use cppadmin.Base.{ℕ, ◌≤◌, Bytes, Bool, true, Option, some, [], ◌≡◌, ◌≢◌, ◌⊎◌, refl, arith}
use cppadmin.Jwt.Library.{Library}
use cppadmin.Jwt.Token.{verify}
use cppadmin.Jwt.Token.Laws.{IsSigned, verify_sound}
use cppadmin.Access.Authentication.{Request, pass_api, pass_web, bearer, auth_filter}

module _ (lib : Library) (secret : Bytes) (blacklisted : Bytes → Option Bool) where
  -- A request passes as one to the API only with a bearer token that is signed, names the user
  -- who is put into the request, and has not expired.
  pub auth_filter-pass_api :
      (req : Request) (now : ℕ) (user token : Bytes)
      → auth_filter lib secret blacklisted req now ≡ pass_api user token
      → (token ≡ bearer req.authorization)
        × IsSigned lib token secret now
        × (user ≡ (verify lib token secret now).sub)
        × (user ≢ [])
        × (((verify lib token secret now).exp ≡ 0) ⊎ (now ≤ (verify lib token secret now).exp))
  unfolding auth_filter
  auth_filter-pass_api req now user token h =
      let same : token ≡ bearer req.authorization = ground arith in
      let valid : (verify lib (bearer req.authorization) secret now).valid ≡ true = ground arith in
      let named : user ≡ (verify lib (bearer req.authorization) secret now).sub = ground arith in
      let (signed, full, fresh) = verify_sound lib (bearer req.authorization) secret now valid in
      rw (same, named) (refl, signed, refl, full, fresh)

  -- A request passes as a page request only with a cookie whose token is signed, has an id,
  -- names the user who is put into the request, and is not known to be revoked.
  pub auth_filter-pass_web :
      (req : Request) (now : ℕ) (user roles : Bytes)
      → auth_filter lib secret blacklisted req now ≡ pass_web user roles
      → IsSigned lib req.cookie secret now
        × (user ≡ (verify lib req.cookie secret now).sub)
        × (user ≢ [])
        × ((verify lib req.cookie secret now).jti ≢ [])
        × (blacklisted (verify lib req.cookie secret now).jti ≢ some true)
  unfolding auth_filter
  auth_filter-pass_web req now user roles h =
      let valid : (verify lib req.cookie secret now).valid ≡ true = ground arith in
      let named : user ≡ (verify lib req.cookie secret now).sub = ground arith in
      let (signed, full, fresh) = verify_sound lib req.cookie secret now valid in
      rw named (signed, refl, full, ground arith, λ gone. absurd (ground arith))
