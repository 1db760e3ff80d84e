-- ===== src/Templates/Plain.antt =====
-- A JSON library for the examples, with what the laws ask of it: each text behind its length.
use cppadmin.Base.{
  ℕ, zero, suc, Bytes, bytes, List, [], ◌∷◌, ◌++◌, Option, none, some, map, length, take, drop,
  take-length-append, ◌≡◌, refl, ap,
}
use cppadmin.Base.Search.{drop-append}
use cppadmin.Templates.Slug.{Item}
use cppadmin.Templates.Catalog.{Node, object, no_object, node_of, Json}
use cppadmin.Templates.Catalog.Restart.{ReadsBack}

chars : Bytes → Bytes → Bytes
chars v r = length v ∷ (v ++ r)

unfoldable texts : List (Bytes × Bytes) → Bytes → Bytes
unfolding chars
texts [] r = r
texts ((k, v) ∷ fields) r = chars v (texts fields r)

unfoldable members : List Node → Bytes
unfolding texts
members [] = []
members (no_object ∷ nodes) = members nodes
members (object fields ∷ nodes) = texts fields (members nodes)

unfoldable text_at : Bytes → Bytes × Bytes
text_at [] = ([], [])
text_at (n ∷ s) = (take n s, drop n s)

unfoldable nodes_at : ℕ → Bytes → List Node
unfolding text_at
nodes_at zero s = []
nodes_at (suc n) s =
    let slug = text_at s in
    let name = text_at slug.1 in
    let category = text_at name.1 in
    node_of (record { slug = slug.0; name = name.0; category = category.0 }) ∷ nodes_at n category.1

abbrev array : Bytes → Option (List Node)
array [] = none
array (n ∷ s) = some (nodes_at n s)

-- Every response is the tree of one landing page.
abbrev tree : List Node
tree =
    object
      ((bytes "type", bytes "blob") ∷ (bytes "path", bytes "landings/law-firm-001-small.html") ∷ [])
    ∷ []

unfoldable pub plain : Json
unfolding members nodes_at
plain = record {
  tree_nodes = λ s. some tree;
  array_nodes = array;
  print = λ nodes. length nodes ∷ members nodes;
}

nodes_at-members :
    (items : List Item)
    → nodes_at (length (map node_of items)) (members (map node_of items)) ≡ map node_of items
unfolding members texts nodes_at chars text_at
nodes_at-members [] = refl
nodes_at-members (it ∷ items) =
    let rest = members (map node_of items) in
    rw
      (
        take-length-append it.slug (chars it.name (chars it.category rest)),
        drop-append it.slug (chars it.name (chars it.category rest)),
        take-length-append it.name (chars it.category rest),
        drop-append it.name (chars it.category rest),
        take-length-append it.category rest,
        drop-append it.category rest,
      )
      (ap (λ nodes. node_of it ∷ nodes) (nodes_at-members items))

pub plain-ReadsBack : ReadsBack plain
unfolding plain
plain-ReadsBack items = ap some (nodes_at-members items)
