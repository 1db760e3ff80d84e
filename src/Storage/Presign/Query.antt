-- ===== src/Storage/Presign/Query.antt =====
-- The query of a presigned address, as the storage server reads it.
use mathlib.Core.List.{append_assoc}
use cppadmin.Base.{
  NoByte-append, ℕ, ◌<◌, ◌≡◌, ◌≢◌, refl, ap, ◌∙◌, sym, Bytes, true, nat_beq, List, [], ◌∷◌, ◌++◌,
  All, NoByte, map, Option, none, some, arith, if◌then◌else◌,
}
use cppadmin.Base.Search.{split_on, Skips-here, NoByte-Skips}
use cppadmin.Storage.Encoding.{uri_encode}
use cppadmin.Storage.Encoding.Laws.{uri_decode, is_uri_byte, uri_decode-uri_encode, uri_encode-All}
use cppadmin.Storage.Presign.{query_of}

abbrev extend : ℕ → List Bytes → List Bytes
extend c [] = (c ∷ []) ∷ []
extend c (s ∷ ss) = (c ∷ s) ∷ ss

-- The text cut at each `b`.
unfoldable segments : ℕ → Bytes → List Bytes
segments b [] = [] ∷ []
segments b (c ∷ s) = let rest = segments b s in if nat_beq c b then [] ∷ rest else extend c rest

abbrev decoded : Bytes → Option (Bytes × Bytes) → Bytes × Bytes
decoded s none = (uri_decode s, [])
decoded s (some (name, value)) = (uri_decode name, uri_decode value)

-- The parameters of a query: cut at `&`, then at the first `=`, and decoded.
unfoldable pub read_query : Bytes → List (Bytes × Bytes)
unfolding segments
read_query s = map (λ p. decoded p (split_on (b'=' ∷ []) p)) (segments b'&' s)

segments-one : (b : ℕ) (s : Bytes) → NoByte b s → segments b s ≡ s ∷ []
unfolding segments
segments-one b [] p = refl
segments-one b (c ∷ s) (p, ps) = let rest = segments-one b s ps in ground arith

segments-append : (b : ℕ) (s r : Bytes) → NoByte b s → segments b (s ++ (b ∷ r)) ≡ s ∷ segments b r
unfolding segments
segments-append b [] r p = ground arith
segments-append b (c ∷ s) r (p, ps) = let rest = segments-append b s r ps in ground arith

All-map : {P Q : ℕ → Type 0} → ((c : ℕ) → P c → Q c) → (s : Bytes) → All P s → All Q s
All-map f [] p = tt
All-map f (c ∷ s) (p, ps) = (f c p, All-map f s ps)

uri_byte-no_and : (c : ℕ) → is_uri_byte true c ≡ true → c ≢ b'&'
uri_byte-no_and c p e = absurd (ground arith)

uri_byte-no_equal : (c : ℕ) → is_uri_byte true c ≡ true → c ≢ b'='
uri_byte-no_equal c p e = absurd (ground arith)

abbrev pub AreBytes : Bytes × Bytes → Type 0
AreBytes (name, value) = All (λ c. c < 256) name × All (λ c. c < 256) value

one : Bytes → Bytes → Bytes
one k v = uri_encode true k ++ (b'=' ∷ uri_encode true v)

one_no_and : (k v : Bytes) → AreBytes (k, v) → NoByte b'&' (one k v)
unfolding one
one_no_and k v (p, q) =
    NoByte-append b'&' (uri_encode true k) _ (All-map uri_byte-no_and _ (uri_encode-All true k p))
      ((λ e. absurd (ground arith)), All-map uri_byte-no_and _ (uri_encode-All true v q))

decoded-one :
    (k v : Bytes) → AreBytes (k, v) → decoded (one k v) (split_on (b'=' ∷ []) (one k v)) ≡ (k, v)
unfolding one
decoded-one k v (p, q) =
    let no_equal = All-map uri_byte-no_equal _ (uri_encode-All true k p) in
    let cut =
      Skips-here b'=' [] (uri_encode true k) (uri_encode true v)
        (NoByte-Skips b'=' [] _ no_equal) in
    ap (decoded (one k v)) cut
    ∙ ap (λ a. (a, uri_decode (uri_encode true v))) (uri_decode-uri_encode true k p)
    ∙ ap (λ b. (k, b)) (uri_decode-uri_encode true v q)

query_of-two :
    (k v : Bytes) (q : Bytes × Bytes) (qs : List (Bytes × Bytes))
    → query_of ((k, v) ∷ q ∷ qs) ≡ one k v ++ (b'&' ∷ query_of (q ∷ qs))
unfolding query_of one
query_of-two k v q qs = sym (append_assoc (uri_encode true k) (b'=' ∷ uri_encode true v) _)

-- The storage server reads back the parameters of the query, each with its name and value, in
-- order, whatever bytes they have: no value can add or change a parameter.
pub read_query-query_of :
    (p : Bytes × Bytes) (ps : List (Bytes × Bytes))
    → All AreBytes (p ∷ ps)
    → read_query (query_of (p ∷ ps)) ≡ p ∷ ps
unfolding read_query
read_query-query_of (k, v) [] (h, hs) =
    let single : query_of ((k, v) ∷ []) ≡ one k v = unfold query_of one in refl in
    rw (single, segments-one b'&' (one k v) (one_no_and k v h))
      (ap (λ x. x ∷ []) (decoded-one k v h))
read_query-query_of (k, v) (q ∷ qs) (h, hs) =
    rw
      (query_of-two k v q qs, segments-append b'&' (one k v) (query_of (q ∷ qs)) (one_no_and k v h))
      (ap (λ x. x ∷ read_query (query_of (q ∷ qs))) (decoded-one k v h)
        ∙ ap (λ xs. (k, v) ∷ xs) (read_query-query_of q qs hs))
