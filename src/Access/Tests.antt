-- ===== src/Access/Tests.antt =====
-- Requests against a small registry and a small database.
use cppadmin.Base.{
  List, ◌≡◌, ◌≢◌, ◌⊎◌, ◌↔◌, inl, inr, refl, Bytes, bytes_beq, true, false, [], ◌∷◌, some, arith,
}
use cppadmin.Database.Memory.{memory, empty_memory, targets, rows_of, rows_of_all}
use cppadmin.Database.Memory.Relational.{memory_laws}
use cppadmin.Access.Routes.{
  RouteRegistry, RouteEntry, Entries, empty_registry, add, entry, put, find,
  name_by_method_and_path, path_matches, split, split_from, all_match, first_match,
}
use cppadmin.Access.Routes.Matching.{Matches, HasParts, path_matches_iff}
use cppadmin.Access.Routes.Laws.{
  IsEntry, IsKeyed, add-IsKeyed, name_by_method_and_path_sound, name_by_method_and_path_complete,
}
use cppadmin.Access.Rbac.{Request, allow, rbac_filter, user_is_administrator, user_has_access}
use cppadmin.Access.Rbac.Laws.{IsAdministrator, HasPermission, rbac_filter_iff}

-- GET /a/{ under the name "n"
abbrev registry : RouteRegistry
registry = add (110 ∷ []) (71 ∷ []) (47 ∷ 97 ∷ 47 ∷ 123 ∷ []) empty_registry

abbrev same_order : Entries → Entries
same_order m = m

abbrev req_path : Bytes
req_path = 47 ∷ 97 ∷ 47 ∷ 98 ∷ []

path_matches_example : (path_matches (47 ∷ 123 ∷ []) (47 ∷ 98 ∷ []) ≡ true) ↔ (
    (ps : List Bytes) × (xs : List Bytes) × HasParts (47 ∷ 123 ∷ []) ps
    × HasParts (47 ∷ 98 ∷ []) xs
    × Matches ps xs)
path_matches_example = path_matches_iff (47 ∷ 123 ∷ []) (47 ∷ 98 ∷ [])

registry_IsKeyed : IsKeyed registry.by_method_path
registry_IsKeyed =
    add-IsKeyed (110 ∷ []) (71 ∷ []) (47 ∷ 97 ∷ 47 ∷ 123 ∷ []) empty_registry
      ((λ h. absurd (omega arith)), tt) tt

name_found : name_by_method_and_path same_order (71 ∷ []) req_path registry ≡ 110 ∷ []
unfolding name_by_method_and_path add put find bytes_beq first_match path_matches split_from
    all_match entry
name_found = refl

name_given : name_by_method_and_path same_order (71 ∷ []) req_path registry ≢ []
name_given h = absurd (ground (arith, name_found))

name_sound_example :
    (e : RouteEntry) × IsEntry e registry.by_method_path
    × (e.name ≡ name_by_method_and_path same_order (71 ∷ []) req_path registry)
    × (e.method ≡ 71 ∷ [])
    × Matches (split e.path) (split req_path)
name_sound_example =
    name_by_method_and_path_sound same_order (λ e m h. h) (71 ∷ []) req_path registry
      ((λ h. absurd (omega arith)), tt) registry_IsKeyed name_given

abbrev route : RouteEntry
route = entry (110 ∷ []) (71 ∷ []) (47 ∷ 97 ∷ 47 ∷ 123 ∷ [])

all_named : (d : RouteEntry) → IsEntry d registry.by_method_path → d.name ≢ []
unfolding add put entry
all_named d (inl e) h = absurd (ground arith)
all_named d (inr i) h = absurd i

route_there : IsEntry route registry.by_method_path
unfolding add put
route_there = inl refl

route-Matches : Matches (split route.path) (split req_path)
unfolding entry split_from
route-Matches = Matches.literal (Matches.literal (Matches.wildcard Matches.done))

route_method : route.method ≡ 71 ∷ []
unfolding entry
route_method = refl

name_complete_example : name_by_method_and_path same_order (71 ∷ []) req_path registry ≢ []
name_complete_example =
    name_by_method_and_path_complete same_order (λ e m. (λ h. h, λ h. h)) (71 ∷ []) req_path
      registry route all_named route_there route_method route-Matches

abbrev request : Request
request = record { current_user = some (1 ∷ []); path = req_path; method = 71 ∷ []; referer = [] }

nobody_admin : user_is_administrator memory (1 ∷ []) empty_memory ≡ some false
unfolding user_is_administrator targets rows_of
nobody_admin = refl

nobody_permitted :
    user_has_access memory
      (1 ∷ [])
      (name_by_method_and_path same_order (71 ∷ []) req_path registry)
      empty_memory
    ≡ some false
unfolding user_has_access targets rows_of_all
nobody_permitted = refl

rbac_filter_example : (rbac_filter memory same_order registry request empty_memory ≡ allow) ↔ (
    IsAdministrator memory memory_laws empty_memory (1 ∷ [])
    ⊎ HasPermission memory memory_laws empty_memory
        (1 ∷ [])
        (name_by_method_and_path same_order (71 ∷ []) req_path registry))
rbac_filter_example =
    rbac_filter_iff memory memory_laws same_order registry request (1 ∷ []) empty_memory false false
      refl (λ h. absurd (ground arith)) name_given nobody_admin nobody_permitted
