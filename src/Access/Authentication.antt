-- ===== src/Access/Authentication.antt =====
-- filters/AuthFilter.cc and filters/MethodOverrideFilter.cc.
pub mod Laws
mod Tests
use cppadmin.Base.{
  ℕ, Bytes, bytes, Bool, true, false, not, ◌&&◌, drop, is_empty, [], starts_with, Option, none,
  some, ◌==◌, bytes_eq, ◌||◌, if◌then◌else◌,
}
use cppadmin.Jwt.Library.{Library}
use cppadmin.Jwt.Token.{VerifyResult, verify}

-- What the filter reads of a request: the path, the header "Authorization" and the cookie.
pub record Request : Type 0 where
  pub path : Bytes
  pub authorization : Bytes
  pub cookie : Bytes

-- `pass_api` and `pass_web` carry the attributes that the filter sets.
pub data Outcome : Type 0 where
  pass_api : Bytes → Bytes → Outcome
  pass_web : Bytes → Bytes → Outcome
  unauthorized : Outcome
  login_page : Outcome

abbrev pub bearer : Bytes → Bytes
bearer auth = if starts_with auth (bytes "Bearer ") then drop 7 auth else []

-- `blacklisted` is the answer of `JwtBlacklist::isBlacklisted`; an exception (`none`) lets pass.
module _ (lib : Library) (secret : Bytes) (blacklisted : Bytes → Option Bool) where
  abbrev pub accept_web : VerifyResult → Option Bool → Outcome
  accept_web r (some true) = login_page
  accept_web r _ = pass_web r.sub r.roles

  abbrev pub filter_api : Bytes → ℕ → Outcome
  filter_api token now =
      if not (is_empty token) && (verify lib token secret now).valid
      then pass_api (verify lib token secret now).sub token
      else unauthorized

  abbrev pub filter_web : Bytes → ℕ → Outcome
  filter_web token now =
      if not (is_empty token)
        && ((verify lib token secret now).valid && not (is_empty (verify lib token secret now).jti))
      then accept_web (verify lib token secret now) (blacklisted (verify lib token secret now).jti)
      else login_page

  unfoldable pub auth_filter : Request → ℕ → Outcome
  auth_filter req now =
      if starts_with req.path (bytes "/api/")
      then filter_api (bearer req.authorization) now
      else filter_web req.cookie now

pub data Method : Type 0 where
  get head options post put delete patch : Method

-- `override` is the request's parameter `_method`.
unfoldable pub method_override : Method → Bytes → Method
method_override post override =
    if override == bytes "PUT" || override == bytes "put"
    then put
    else if override == bytes "DELETE" || override == bytes "delete"
    then delete
    else if override == bytes "PATCH" || override == bytes "patch"
    then patch
    else post
method_override m override = m
