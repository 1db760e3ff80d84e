-- ===== src/Access/Routes.antt =====
-- include/RouteRegistry.h. The mutex is not modelled: each operation is one step.
pub mod Matching
pub mod Laws
use cppadmin.Base.{
  Bytes, bytes, Bool, true, false, List, [], ◌∷◌, ◌++◌, Option, none, some, ◌&&◌, ◌||◌, length,
  nat_beq, is_empty, starts_with, ◌==◌, bytes_eq, bytes_beq, if◌then◌else◌,
}

pub record RouteEntry : Type 0 where
  pub name : Bytes
  pub method : Bytes
  pub path : Bytes
  pub guard_name : Bytes

abbrev pub Entries : Type 0
Entries = List (Bytes × RouteEntry)

-- The two hash maps as association lists, each key once.
pub record RouteRegistry : Type 0 where
  pub by_name : Entries
  pub by_method_path : Entries
  pub all : List RouteEntry

abbrev pub empty_registry : RouteRegistry
empty_registry = record { by_name = []; by_method_path = []; all = [] }

-- map[k] = e
unfoldable pub put : Bytes → RouteEntry → Entries → Entries
put k e [] = (k, e) ∷ []
put k e ((j, d) ∷ m) = let rest = put k e m in if bytes_beq j k then (k, e) ∷ m else (j, d) ∷ rest

unfoldable pub find : Bytes → Entries → Option RouteEntry
find k [] = none
find k ((j, d) ∷ m) = if bytes_beq j k then some d else find k m

-- The key of two texts: a + "|" + b
abbrev pub joined : Bytes → Bytes → Bytes
joined a b = a ++ (b'|' ∷ b)

unfoldable pub entry : Bytes → Bytes → Bytes → RouteEntry
entry name method path = record {
  name = name;
  method = method;
  path = path;
  guard_name = if starts_with name (bytes "api.") then bytes "api" else bytes "web";
}

unfoldable pub add : Bytes → Bytes → Bytes → RouteRegistry → RouteRegistry
add name method path reg = record {
  by_name = put (joined name method) (entry name method path) reg.by_name;
  by_method_path = put (joined method path) (entry name method path) reg.by_method_path;
  all = reg.all ++ (entry name method path ∷ []);
}

-- The parts between slashes; `cur` is the part that has begun.
unfoldable pub split_from : Bytes → Bytes → List Bytes
split_from cur [] = cur ∷ []
split_from cur (c ∷ s) =
    if nat_beq c b'/' then cur ∷ split_from [] s else split_from (cur ++ (c ∷ [])) s

abbrev pub split : Bytes → List Bytes
split s = split_from [] s

-- !p.empty() && p.front() == '{'
abbrev pub is_wildcard : Bytes → Bool
is_wildcard [] = false
is_wildcard (c ∷ p) = nat_beq c b'{'

-- The loop over the parts of both texts.
unfoldable pub all_match : List Bytes → List Bytes → Bool
all_match (p ∷ ps) (x ∷ xs) =
    let rest = all_match ps xs in
    if is_empty p && is_empty x
    then rest
    else if is_wildcard p
    then rest
    else if p == x
    then rest
    else false
all_match _ _ = true

unfoldable pub path_matches : Bytes → Bytes → Bool
path_matches pattern actual =
    if nat_beq (length (split pattern)) (length (split actual))
    then all_match (split pattern) (split actual)
    else false

-- The loop over the map, whose order the language leaves open: `entries` is that order.
unfoldable pub first_match : Bytes → Bytes → Entries → Bytes
first_match method req_path [] = []
first_match method req_path ((k, e) ∷ entries) =
    let rest = first_match method req_path entries in
    if e.method == method && path_matches e.path req_path then e.name else rest

module _ (order : Entries → Entries) where
  unfoldable pub name_by_method_and_path : Bytes → Bytes → RouteRegistry → Bytes
  name_by_method_and_path method req_path reg =
      elim (find (joined method req_path) reg.by_method_path) [
        | some e ↦ e.name
        | none ↦ first_match method req_path (order reg.by_method_path)
      ]
