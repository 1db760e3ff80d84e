-- ===== src/Access/Rbac/Laws.antt =====
-- Who gets past the filter.
use cppadmin.Base.{
  Bytes, bytes, Bool, true, none, some, [], ◌≡◌, ◌≢◌, ◌⊎◌, ◌↔◌, inl, inr, arith, Bool-cases,
  Option-cases,
}
use cppadmin.Database.{Database}
use cppadmin.Database.Schema.{
  Row, users_roles, roles_permissions, roles, permissions, text, administrator_membership,
  active_permission,
}
use cppadmin.Database.Schema
use cppadmin.Database.Laws.{IsRelational}
use cppadmin.Access.Routes.{RouteRegistry, Entries, name_by_method_and_path}
use cppadmin.Access.Rbac.{
  Request, allow, login_page, user_is_administrator, user_has_access, rbac_filter,
}

module _ (db : Database) (law : IsRelational db) where
  -- A role of the user is called Administrator.
  abbrev pub IsAdministrator : db.State → Bytes → Type 0
  IsAdministrator s user =
      (i : Bytes) × (r : Row) × (law.linked s users_roles user i ≡ true)
      × (law.stored s roles i ≡ some r)
      × (r Schema.name ≡ some (text (bytes "Administrator")))

  -- A role of the user has an active permission of that name.
  abbrev pub HasPermission : db.State → Bytes → Bytes → Type 0
  HasPermission s user name =
      (i : Bytes) × (j : Bytes) × (r : Row) × (law.linked s users_roles user i ≡ true)
      × (law.linked s roles_permissions i j ≡ true)
      × (law.stored s permissions j ≡ some r)
      × (r Schema.name ≡ some (text name))
      × (r Schema.status ≡ some (text (bytes "Active")))

  pub user_is_administrator_iff :
      (user : Bytes) (s : db.State) (b : Bool)
      → user_is_administrator db user s ≡ some b
      → (b ≡ true) ↔ IsAdministrator s user
  unfolding user_is_administrator
  user_is_administrator_iff user s b h =
      elim (Option-cases (db.query (administrator_membership user) s)) [
        | inl e ↦ absurd (ground arith)
        | inr (rows, e) ↦
            let (to, from) = law.administrator_iff user s rows e in
            (λ t. to (ground arith), λ m. let full = from m in ground arith)
      ]

  pub user_has_access_iff :
      (user name : Bytes) (s : db.State) (b : Bool)
      → user_has_access db user name s ≡ some b
      → (b ≡ true) ↔ HasPermission s user name
  unfolding user_has_access
  user_has_access_iff user name s b h =
      elim (Option-cases (db.query (active_permission user name) s)) [
        | inl e ↦ absurd (ground arith)
        | inr (rows, e) ↦
            let (to, from) = law.active_permission_iff user name s rows e in
            (λ t. to (ground arith), λ m. let full = from m in ground arith)
      ]

  module _ (order : Entries → Entries) (reg : RouteRegistry) where
    -- On a relational database that answers, a request of a logged-in user for a registered
    -- route passes exactly if the user is an administrator or has an active permission with
    -- the name of the route.
    pub rbac_filter_iff :
        (req : Request) (user : Bytes) (s : db.State) (admin permitted : Bool)
        → req.current_user ≡ some user
        → user ≢ []
        → name_by_method_and_path order req.method req.path reg ≢ []
        → user_is_administrator db user s ≡ some admin
        → user_has_access db user (name_by_method_and_path order req.method req.path reg) s
          ≡ some permitted
        → (rbac_filter db order reg req s ≡ allow) ↔ (
            IsAdministrator s user
            ⊎ HasPermission s user (name_by_method_and_path order req.method req.path reg))
    unfolding rbac_filter
    rbac_filter_iff req user s admin permitted c n r a p =
        let (a_to, a_from) = user_is_administrator_iff user s admin a in
        let (p_to, p_from) =
          user_has_access_iff user (name_by_method_and_path order req.method req.path reg) s
            permitted p in
        (
          λ h. elim (Bool-cases admin) [
            | inl t ↦ inl (a_to t)
            | inr f ↦ elim (Bool-cases permitted) [
              | inl t ↦ inr (p_to t)
              | inr g ↦ absurd (ground arith)
            ]
          ],
          λ h. elim h [
            | inl m ↦ let t = a_from m in ground arith
            | inr m ↦ let t = p_from m in ground arith
          ],
        )

    -- A request without a user never passes.
    pub rbac_filter-none :
        (req : Request) (s : db.State)
        → (req.current_user ≡ none) ⊎ (req.current_user ≡ some [])
        → rbac_filter db order reg req s ≡ login_page
    unfolding rbac_filter
    rbac_filter-none req s h = ground arith
