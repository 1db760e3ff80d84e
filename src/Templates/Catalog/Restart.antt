-- ===== src/Templates/Catalog/Restart.antt =====
-- What the catalogue file keeps over a restart.
use cppadmin.Base.{
  ℕ, zero, suc, ◌+◌, ◌-◌, ◌<◌, ◌≤◌, Bytes, bytes, true, false, not, ◌&&◌, ◌||◌, ltb, leb, List, [],
  ◌∷◌, ◌++◌, Option, none, some, map, null, All, length, take, drop, ◌≡◌, ◌≢◌, refl, ap, ◌∙◌, sym,
  arith, Bool-cases, Option-cases, inl, inr, is_empty, is_empty_lem, bytes_beq, starts_with,
  nat_beq, ◌==◌, bytes_eq,
}
use cppadmin.Templates.Slug.{Item, derive, match_slug}
use cppadmin.Templates.Store.{Response}
use cppadmin.Templates.Catalog.{
  Node, object, no_object, Json, field, path_items, node_items, tree_items, disk_items, node_of,
  Catalog, catalog_ttl, tree_url, remember, read_disk_cache, write_disk_cache, parse_tree, fetched,
  after_fetch, parse_nodes, items_or_none, list, prefix, suffix, ends_with,
}
use cppadmin.Templates.Catalog.Laws.{list-disk, list-fetch, null_lem, null-cons}

abbrev HasSlug : Item → Type 0
HasSlug it = it.slug ≢ []

derive-slug : (slug : Bytes) → (derive slug).slug ≡ slug
unfolding derive
derive-slug slug = elim (Option-cases (match_slug slug)) [
  | inl e ↦ ground arith
  | inr (g, e) ↦ ground arith
]

take-some : (n m : ℕ) (s : Bytes) → n < length s → 1 ≤ m → take m (drop n s) ≢ []
take-some n m [] p q h = absurd (omega arith)
take-some zero zero (c ∷ s) p q h = absurd (omega arith)
take-some zero (suc m) (c ∷ s) p q h = absurd (ground arith)
take-some (suc n) m (c ∷ s) p q h = take-some n m s (omega arith) q h

path_items-HasSlug : (path : Bytes) → All HasSlug (path_items path)
unfolding path_items
path_items-HasSlug path =
    elim (Bool-cases
      (not (starts_with path prefix) || leb (length path) (length prefix + length suffix))) [
        | inl bad ↦ rw bad tt
        | inr good ↦ elim (Bool-cases (not (ends_with path suffix))) [
          | inl bad ↦ rw (good, bad) tt
          | inr ends ↦
              let some_byte =
                take-some (length prefix) (length path - length prefix - length suffix) path
                  (ground arith) (ground arith) in
              rw (good, ends) ((λ h. some_byte (sym (derive-slug _) ∙ h)), tt)
        ]
      ]

All-append : (xs ys : List Item) → All HasSlug xs → All HasSlug ys → All HasSlug (xs ++ ys)
All-append [] ys p q = q
All-append (x ∷ xs) ys (p, ps) q = (p, All-append xs ys ps q)

node_items-HasSlug : (n : Node) → All HasSlug (node_items n)
unfolding node_items
node_items-HasSlug no_object = tt
node_items-HasSlug (object fields) =
    elim (Bool-cases (not (field (bytes "type") fields == bytes "blob"))) [
      | inl other ↦ rw other tt
      | inr blob ↦ rw blob (path_items-HasSlug (field (bytes "path") fields))
    ]

tree_items-HasSlug : (nodes : List Node) → All HasSlug (tree_items nodes)
unfolding tree_items
tree_items-HasSlug [] = tt
tree_items-HasSlug (n ∷ nodes) =
    All-append (node_items n) _ (node_items-HasSlug n) (tree_items-HasSlug nodes)

disk_items-node_of :
    (items : List Item) → All HasSlug items → disk_items (map node_of items) ≡ items
unfolding disk_items field bytes bytes_beq
disk_items-node_of [] p = refl
disk_items-node_of (it ∷ items) (p, ps) =
    rw (is_empty_lem it.slug p) (ap (λ rest. it ∷ rest) (disk_items-node_of items ps))

-- What JsonCpp is documented to do: it reads back the array that it wrote.
abbrev pub ReadsBack : Json → Type 0
ReadsBack json =
    (items : List Item)
    → json.array_nodes (json.print (map node_of items)) ≡ some (map node_of items)

-- What `std::sort` is documented to do, as far as it matters here: it adds no item.
abbrev pub AddsNone : (List Item → List Item) → Type 1
AddsNone sort = (P : Item → Type 0) (items : List Item) → All P items → All P (sort items)

-- The process ends: what is left is the file.
abbrev pub restarted : Catalog → Catalog
restarted c = record c { memo = []; memo_at = 0 }

module _ (json : Json) (reads : ReadsBack json) (sort : List Item → List Item)
    (adds : AddsNone sort) where
  parse_nodes-HasSlug : (o : Option (List Node)) → All HasSlug (parse_nodes json sort o)
  unfolding parse_tree
  parse_nodes-HasSlug none = tt
  parse_nodes-HasSlug (some nodes) = adds HasSlug (tree_items nodes) (tree_items-HasSlug nodes)

  fetched-HasSlug : (res : Response) → All HasSlug (fetched json sort res)
  unfolding fetched parse_tree
  fetched-HasSlug res = elim (Bool-cases (not (is_empty res.error))) [
    | inl failed ↦ rw failed tt
    | inr sent ↦ elim (Bool-cases (not (nat_beq res.status 200))) [
      | inl bad ↦ rw (sent, bad) tt
      | inr good ↦ rw (sent, good) (parse_nodes-HasSlug (json.tree_nodes res.body))
    ]
  ]

  read_disk_cache-saved :
      (items : List Item) (c : Catalog)
      → All HasSlug items
      → c.disk ≡ some (json.print (map node_of items))
      → read_disk_cache json c ≡ items
  unfolding read_disk_cache
  read_disk_cache-saved items c p e =
      let read : items_or_none json (json.array_nodes (json.print (map node_of items))) ≡ items =
        rw (reads items) (disk_items-node_of items p) in
      rw e read

  after_fetch-some :
      (items : List Item) (now : ℕ) (c : Catalog)
      → items ≢ []
      → c.is_writable ≡ true
      → after_fetch json sort items now c
        ≡ (items, record (remember items now c) { disk = some (json.print (map node_of items)) })
  unfolding write_disk_cache
  after_fetch-some items now c p can = rw (null-cons items p, can) refl

  read_disk_cache-restarted :
      (c : Catalog) → read_disk_cache json (restarted c) ≡ read_disk_cache json c
  unfolding read_disk_cache
  read_disk_cache-restarted c = refl

  -- A new process lists what the file holds.
  list-saved :
      (http : Bytes → Response) (now : ℕ) (c : Catalog) (items : List Item)
      → items ≢ []
      → c.memo ≡ []
      → read_disk_cache json c ≡ items
      → (list json sort http now c).0 ≡ items
  list-saved http now c items some_item new read =
      let full : null (read_disk_cache json c) ≡ false = rw read (null-cons items some_item) in
      let start : (not (null c.memo) && ltb (now - c.memo_at) catalog_ttl) ≡ false = rw new refl in
      ap (λ r. r.0) (list-disk json sort http now c start full) ∙ read

  -- Where the file can be written and the network once gave a catalogue, a restart loses nothing:
  -- the new process lists what the old one listed, with no answer from the network. JsonCpp reads
  -- back what it writes, and the sorting adds no item.
  pub list-restarted :
      (http later_http : Bytes → Response) (now later : ℕ) (c : Catalog)
      → c.memo ≡ []
      → c.is_writable ≡ true
      → fetched json sort (http tree_url) ≢ []
      → (list json sort later_http later (restarted (list json sort http now c).1)).0
        ≡ (list json sort http now c).0
  list-restarted http later_http now later c new can some_item =
      let start : (not (null c.memo) && ltb (now - c.memo_at) catalog_ttl) ≡ false = rw new refl in
      elim (Bool-cases (null (read_disk_cache json c))) [
        | inr found ↦ rw (list-disk json sort http now c start found) (
            list-saved later_http later (restarted c) (read_disk_cache json c) (null_lem _ found)
              refl (read_disk_cache-restarted c))
        | inl absent ↦
            let items = fetched json sort (http tree_url) in
            rw
              (
                list-fetch json sort http now c start absent,
                after_fetch-some items now c some_item can,
              )
              (list-saved later_http later _ items some_item refl
                (read_disk_cache-saved items _ (fetched-HasSlug (http tree_url)) refl))
      ]
