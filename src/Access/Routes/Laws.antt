-- ===== src/Access/Routes/Laws.antt =====
-- Which route a request is taken for.
use cppadmin.Base.{
  Bytes, true, [], ◌∷◌, some, ◌&&◌, ◌==◌, bytes_eq, bytes_beq, bytes_beq_iff, ◌≡◌, ◌≢◌, ◌⊎◌, inl,
  inr, refl, sym, ap, ◌∙◌, arith, Bool-cases, Option-cases, All, NoByte, subst, some_inj,
}
use cppadmin.Jwt.Token.{split_at}
use cppadmin.Jwt.Token.Dots.{split_at-append}
use cppadmin.Access.Routes.Matching.{Matches, path_matches-split, Matches-refl}
use cppadmin.Access.Routes.{
  RouteEntry, RouteRegistry, Entries, put, find, joined, entry, add, split, path_matches,
  first_match, name_by_method_and_path,
}

-- An entry that is in the map.
abbrev pub IsEntry : RouteEntry → Entries → Type 0
IsEntry e [] = ⊥
IsEntry e ((k, d) ∷ m) = (d ≡ e) ⊎ IsEntry e m

-- Every key is made of the method and the path of its entry, and no method has a bar.
abbrev pub IsKeyed : Entries → Type 0
IsKeyed m = All (λ (k, e). (k ≡ joined e.method e.path) × NoByte b'|' e.method) m

find-IsEntry :
    (k : Bytes) (m : Entries) (e : RouteEntry)
    → IsKeyed m
    → find k m ≡ some e
    → IsEntry e m × (k ≡ joined e.method e.path) × NoByte b'|' e.method
unfolding find
find-IsEntry k [] e keyed h = absurd (ground arith)
find-IsEntry k ((j, d) ∷ m) e ((p, q), keyed) h = elim (Bool-cases (bytes_beq j k)) [
  | inl e' ↦
      let same : d ≡ e = ground arith in
      subst
        (λ (x : RouteEntry).
          ((d ≡ x) ⊎ IsEntry x m) × (k ≡ joined x.method x.path) × NoByte b'|' x.method)
        same (inl refl, sym ((bytes_beq_iff j k).0 e') ∙ p, q)
  | inr off ↦
      let (there, key, bar) = find-IsEntry k m e keyed (ground arith) in (inr there, key, bar)
]

joined_inj :
    (a b c d : Bytes) → NoByte b'|' a → NoByte b'|' c → joined a b ≡ joined c d → (a ≡ c) × (b ≡ d)
joined_inj a b c d h k e =
    let same =
      some_inj
        (sym (split_at-append b'|' a b h) ∙ (ap (split_at b'|') e ∙ split_at-append b'|' c d k)) in
    (ap (λ (p : Bytes × Bytes). p.0) same, ap (λ (p : Bytes × Bytes). p.1) same)

put-IsKeyed :
    (k : Bytes) (e : RouteEntry) (m : Entries)
    → k ≡ joined e.method e.path
    → NoByte b'|' e.method
    → IsKeyed m
    → IsKeyed (put k e m)
unfolding put
put-IsKeyed k e [] p q h = ((p, q), tt)
put-IsKeyed k e ((j, d) ∷ m) p q ((pj, qj), h) = elim (Bool-cases (bytes_beq j k)) [
  | inl same ↦ rw same ((p, q), h)
  | inr off ↦ rw off ((pj, qj), put-IsKeyed k e m p q h)
]

first_match_sound :
    (method req_path : Bytes) (m : Entries)
    → first_match method req_path m ≢ []
    → (e : RouteEntry) × IsEntry e m
      × (e.name ≡ first_match method req_path m)
      × (e.method ≡ method)
      × (path_matches e.path req_path ≡ true)
unfolding first_match
first_match_sound method req_path [] h = absurd (h refl)
first_match_sound method req_path ((k, d) ∷ m) h =
    elim (Bool-cases (d.method == method && path_matches d.path req_path)) [
      | inl hit ↦ (
        d,
        inl refl,
        ground arith,
        (bytes_beq_iff d.method method).0 (ground arith),
        ground arith,
      )
      | inr miss ↦
          let (e, there, named, meth, path) = first_match_sound method req_path m (ground arith) in
          (e, inr there, ground arith, meth, path)
    ]

-- A registration keeps every key made of its method, without a bar, and its path, if the new
-- method has no bar.
pub add-IsKeyed :
    (name method path : Bytes) (reg : RouteRegistry)
    → NoByte b'|' method
    → IsKeyed reg.by_method_path
    → IsKeyed (add name method path reg).by_method_path
unfolding add entry
add-IsKeyed name method path reg bar keyed =
    put-IsKeyed (joined method path) (entry name method path) reg.by_method_path refl bar keyed

-- In whatever order the map is walked, if every key is made of its method, without a bar, and its
-- path, a name that is found is that of a registered entry with the method of the request, whose
-- pattern matches the path of the request.
pub name_by_method_and_path_sound :
    (order : Entries → Entries)
    → ((e : RouteEntry) (m : Entries) → IsEntry e (order m) → IsEntry e m)
    → (method req_path : Bytes) (reg : RouteRegistry) → NoByte b'|' method
    → IsKeyed reg.by_method_path
    → name_by_method_and_path order method req_path reg ≢ []
    → (e : RouteEntry) × IsEntry e reg.by_method_path
      × (e.name ≡ name_by_method_and_path order method req_path reg)
      × (e.method ≡ method)
      × Matches (split e.path) (split req_path)
unfolding name_by_method_and_path
name_by_method_and_path_sound order law method req_path reg bar keyed h =
    elim (Option-cases (find (joined method req_path) reg.by_method_path)) [
      | inr (e, f) ↦
          let (there, key, bar') =
            find-IsEntry (joined method req_path) reg.by_method_path e keyed f in
          let (meth, path) = joined_inj method req_path e.method e.path bar bar' key in
          (
            e,
            there,
            ground arith,
            sym meth,
            subst (λ (p : Bytes). Matches (split e.path) (split p)) (sym path)
                (Matches-refl (split e.path)),
          )
      | inl f ↦
          let (e, there, named, meth, path) =
            first_match_sound method req_path (order reg.by_method_path) (ground arith) in
          (
            e,
            law e reg.by_method_path there,
            ground arith,
            meth,
            (path_matches-split e.path req_path).0 path,
          )
    ]

first_match_complete :
    (method req_path : Bytes) (m : Entries) (e : RouteEntry)
    → ((d : RouteEntry) → IsEntry d m → d.name ≢ [])
    → IsEntry e m
    → e.method ≡ method
    → path_matches e.path req_path ≡ true
    → first_match method req_path m ≢ []
unfolding first_match
first_match_complete method req_path [] e named there p q = absurd there
first_match_complete method req_path ((k, d) ∷ m) e named there p q =
    elim (Bool-cases (d.method == method && path_matches d.path req_path)) [
      | inl hit ↦ rw hit (named d (inl refl))
      | inr miss ↦ elim there [
        | inl same ↦ absurd (
            ground (
              arith,
              (bytes_beq_iff d.method method).1 (ap (λ (x : RouteEntry). x.method) same ∙ p),
              ap (λ (x : RouteEntry). path_matches x.path req_path) same ∙ q,
            ))
        | inr later ↦
            rw miss (first_match_complete method req_path m e (λ x i. named x (inr i)) later p q)
      ]
    ]

find_named : (k : Bytes) (m : Entries) (e : RouteEntry) → find k m ≡ some e → IsEntry e m
unfolding find
find_named k [] e h = absurd (ground arith)
find_named k ((j, d) ∷ m) e h = elim (Bool-cases (bytes_beq j k)) [
  | inl f ↦ inl (ground arith)
  | inr f ↦ inr (find_named k m e (ground arith))
]

-- In whatever order the map is walked, a request that a registered entry matches gets a name, if
-- no entry has the empty name.
pub name_by_method_and_path_complete :
    (order : Entries → Entries)
    → ((e : RouteEntry) (m : Entries)
        → (IsEntry e (order m) → IsEntry e m) × (IsEntry e m → IsEntry e (order m)))
    → (method req_path : Bytes) (reg : RouteRegistry) (e : RouteEntry)
    → ((d : RouteEntry) → IsEntry d reg.by_method_path → d.name ≢ [])
    → IsEntry e reg.by_method_path
    → e.method ≡ method
    → Matches (split e.path) (split req_path)
    → name_by_method_and_path order method req_path reg ≢ []
unfolding name_by_method_and_path
name_by_method_and_path_complete order law method req_path reg e named there same m =
    elim (Option-cases (find (joined method req_path) reg.by_method_path)) [
      | inr (d, f) ↦
          rw (f, name_by_method_and_path)
            (named d (find_named (joined method req_path) reg.by_method_path d f))
      | inl f ↦
          rw (f, name_by_method_and_path)
            (first_match_complete method req_path (order reg.by_method_path) e
              (λ d i. named d ((law d reg.by_method_path).0 i)) ((law e reg.by_method_path).1 there)
              same ((path_matches-split e.path req_path).1 m))
    ]
