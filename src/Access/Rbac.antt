-- ===== src/Access/Rbac.antt =====
-- services/RbacHelper.cc and filters/RbacFilter.cc.
pub mod Laws
use cppadmin.Base.{
  Bytes, bytes, Bool, true, false, not, null, is_empty, starts_with, Option, none, some,
  if◌then◌else◌,
}
use mathlib.Core.Option
use cppadmin.Database.{Database}
use cppadmin.Database.Schema.{administrator_membership, active_permission}
use cppadmin.Access.Routes.{RouteRegistry, Entries, name_by_method_and_path}

-- What the filter reads of a request; the user is the attribute `currentUser`.
pub record Request : Type 0 where
  pub current_user : Option Bytes
  pub path : Bytes
  pub method : Bytes
  pub referer : Bytes

-- `allow` calls the next filter; `deny_api` is the JSON answer with status 403, `deny_web` a
-- redirection with the flash message "Unauthorized.".
pub data Outcome : Type 0 where
  allow : Outcome
  login_page : Outcome
  deny_api : Outcome
  deny_web : Bytes → Outcome

module _ (db : Database) where
  -- `none` is an exception of the database.
  unfoldable pub user_is_administrator : Bytes → db.State → Option Bool
  user_is_administrator user s =
      Option.map (λ rows. not (null rows)) (db.query (administrator_membership user) s)

  unfoldable pub user_has_access : Bytes → Bytes → db.State → Option Bool
  user_has_access user route_name s =
      Option.map (λ rows. not (null rows)) (db.query (active_permission user route_name) s)

  abbrev pub denied : Request → Outcome
  denied req =
      if starts_with req.path (bytes "/api/")
      then deny_api
      else deny_web (if is_empty req.referer then bytes "/admin/v1/dashboard" else req.referer)

  -- An exception of the database lets the request pass.
  abbrev pub by_permission : Request → Option Bool → Outcome
  by_permission req none = allow
  by_permission req (some true) = allow
  by_permission req (some false) = denied req

  abbrev pub by_role : Request → Option Bool → Option Bool → Outcome
  by_role req none permitted = allow
  by_role req (some true) permitted = allow
  by_role req (some false) permitted = by_permission req permitted

  abbrev pub authorize : Request → Bytes → Bytes → db.State → Outcome
  authorize req user route_name s =
      if is_empty route_name
      then allow
      else by_role req (user_is_administrator user s) (user_has_access user route_name s)

  module _ (order : Entries → Entries) (reg : RouteRegistry) where
    abbrev pub filter_user : Request → Option Bytes → db.State → Outcome
    filter_user req none s = login_page
    filter_user req (some user) s =
        if is_empty user
        then login_page
        else authorize req user (name_by_method_and_path order req.method req.path reg) s

    unfoldable pub rbac_filter : Request → db.State → Outcome
    rbac_filter req s = filter_user req req.current_user s
