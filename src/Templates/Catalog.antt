-- ===== src/Templates/Catalog.antt =====
-- services/FeCatalogService.cc: the catalogue of templates, kept in memory for six hours and in a
-- file for longer. `memo` and `memo_at` are the static members, each operation one step under
-- their mutex; the times are the steady clock's seconds. JsonCpp is a parameter: the texts it
-- reads are lists of nodes, of which only the fields that are texts matter. `std::sort` may order
-- equal items in any way, so that it is a parameter too.
pub mod Pages
pub mod Laws
pub mod Restart
pub mod Preview
use cppadmin.Base.{
  ℕ, ◌+◌, ◌-◌, ◌*◌, Bytes, bytes, Bool, true, false, not, ◌&&◌, ◌||◌, leb, ltb, List, [], ◌∷◌, ◌++◌,
  Option, none, some, map, nat_beq, is_empty, null, any, take, drop, length, starts_with, ◌==◌,
  bytes_eq, bytes_beq, if◌then◌else◌, All, ◌≡◌,
}
use cppadmin.Templates.Slug.{Item, derive}
use cppadmin.Templates.Curated.{curated}
use cppadmin.Templates.Store.{Response}

-- A value of a JSON array, with the fields that are texts.
pub data Node : Type 0 where
  object : List (Bytes × Bytes) → Node
  no_object : Node

-- `tree_nodes` is the array `body["tree"]` of a response, `array_nodes` a text that is an array,
-- `print` the text that `writeString` makes of one.
pub record Json : Type 0 where
  pub tree_nodes : Bytes → Option (List Node)
  pub array_nodes : Bytes → Option (List Node)
  pub print : List Node → Bytes

-- n.get(key, "").asString()
unfoldable pub field : Bytes → List (Bytes × Bytes) → Bytes
field key [] = []
field key ((k, v) ∷ fields) = let rest = field key fields in if k == key then v else rest

abbrev pub prefix : Bytes
prefix = bytes "landings/"

abbrev pub suffix : Bytes
suffix = bytes ".html"

unfoldable pub ends_with : Bytes → Bytes → Bool
ends_with s end = starts_with (drop (length s - length end) s) end

-- The item of a path, without the prefix and the suffix.
unfoldable pub path_items : Bytes → List Item
path_items path =
    if not (starts_with path prefix) || leb (length path) (length prefix + length suffix)
    then []
    else if not (ends_with path suffix)
    then []
    else derive (take (length path - length prefix - length suffix) (drop (length prefix) path))
      ∷ []

unfoldable pub node_items : Node → List Item
unfolding path_items field
node_items no_object = []
node_items (object fields) =
    if not (field (bytes "type") fields == bytes "blob")
    then []
    else path_items (field (bytes "path") fields)

unfoldable pub tree_items : List Node → List Item
tree_items [] = []
tree_items (n ∷ nodes) = node_items n ++ tree_items nodes

unfoldable pub disk_items : List Node → List Item
disk_items [] = []
disk_items (no_object ∷ nodes) = disk_items nodes
disk_items (object fields ∷ nodes) =
    let rest = disk_items nodes in
    if is_empty (field (bytes "slug") fields)
    then rest
    else record {
      slug = field (bytes "slug") fields;
      name = field (bytes "name") fields;
      category = field (bytes "category") fields;
    }
      ∷ rest

abbrev pub node_of : Item → Node
node_of it =
    object
      ((bytes "slug", it.slug) ∷ (bytes "name", it.name) ∷ (bytes "category", it.category) ∷ [])

-- `disk` is what the catalogue file holds.
pub record Catalog : Type 0 where
  pub memo : List Item
  pub memo_at : ℕ
  pub disk : Option Bytes
  pub is_writable : Bool

-- kCatalogTtl
abbrev pub catalog_ttl : ℕ
catalog_ttl = 21600

abbrev pub tree_url : Bytes
tree_url = bytes "https://api.github.com/repos/lindoai/opentailwind/git/trees/master?recursive=1"

abbrev pub remember : List Item → ℕ → Catalog → Catalog
remember items now c = record c { memo = items; memo_at = now }

module _ (json : Json) where
  abbrev pub items_or_none : Option (List Node) → List Item
  items_or_none none = []
  items_or_none (some nodes) = disk_items nodes

  unfoldable pub read_disk_cache : Catalog → List Item
  read_disk_cache c = elim c.disk [ none ↦ [] | some raw ↦ items_or_none (json.array_nodes raw) ]

  unfoldable pub write_disk_cache : List Item → Catalog → Catalog
  write_disk_cache items c =
      if c.is_writable then record c { disk = some (json.print (map node_of items)) } else c

module _ (json : Json) (sort : List Item → List Item) where
  unfoldable pub parse_tree : List Node → List Item
  parse_tree nodes = sort (tree_items nodes)

  abbrev pub parse_nodes : Option (List Node) → List Item
  parse_nodes none = []
  parse_nodes (some nodes) = parse_tree nodes

  -- The items of the response; nothing where the code throws.
  unfoldable pub fetched : Response → List Item
  unfolding parse_tree
  fetched res =
      if not (is_empty res.error)
      then []
      else if not (nat_beq res.status 200)
      then []
      else parse_nodes (json.tree_nodes res.body)

  -- The fallback to the curated list is not written to the file.
  abbrev pub after_fetch : List Item → ℕ → Catalog → List Item × Catalog
  after_fetch data_items now c =
      if null data_items
      then (curated, remember curated now c)
      else (data_items, write_disk_cache json data_items (remember data_items now c))

module _ (json : Json) (sort : List Item → List Item) (http : Bytes → Response) where
  unfoldable pub list : ℕ → Catalog → List Item × Catalog
  unfolding read_disk_cache fetched write_disk_cache
  list now c =
      if not (null c.memo) && ltb (now - c.memo_at) catalog_ttl
      then (c.memo, c)
      else if not (null (read_disk_cache json c))
      then (read_disk_cache json c, remember (read_disk_cache json c) now c)
      else after_fetch json sort (fetched json sort (http tree_url)) now c

  unfoldable pub has : Bytes → ℕ → Catalog → Bool × Catalog
  has slug now c = (any (λ t. t.slug == slug) (list now c).0, (list now c).1)
