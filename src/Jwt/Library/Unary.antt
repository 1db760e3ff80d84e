-- ===== src/Jwt/Library/Unary.antt =====
-- A library with the laws, for the examples: objects are written in unary, and the MAC is the key
-- and the data, byte by byte.
use cppadmin.Base.{
  ℕ, zero, suc, ◌+◌, ◌%◌, ◌<◌, ◌≡◌, refl, ap, ◌∙◌, Bytes, [], ◌∷◌, ◌++◌, some, All, arith, map,
}
use mathlib.Core.List.{append-nil, append_assoc}
use cppadmin.Jwt.Base64.Decoder.{decode_block, decode_block-DecodesBlocks}
use cppadmin.Jwt.Library.{text, number, Object, strip_newline, Library, IsLawful}

unfoldable pub ones : ℕ → Bytes → Bytes
ones zero s = s
ones (suc n) s = 1 ∷ ones n s

unfoldable pub chars : Bytes → Bytes → Bytes
unfolding ones
chars [] s = s
chars (c ∷ v) s = ones c (2 ∷ chars v s)

unfoldable pub members : Object → Bytes
unfolding chars
members [] = []
members ((k, text v) ∷ o) = chars k (3 ∷ chars v (4 ∷ members o))
members ((k, number n) ∷ o) = chars k (3 ∷ ones n (5 ∷ members o))

unfoldable pub parse_from : Bytes → ℕ → Bytes → Bytes → Object → Object
parse_from [] n acc key out = out
parse_from (zero ∷ s) n acc key out = parse_from s n acc key out
parse_from (suc zero ∷ s) n acc key out = parse_from s (suc n) acc key out
parse_from (suc (suc zero) ∷ s) n acc key out = parse_from s 0 (acc ++ n ∷ []) key out
parse_from (suc (suc (suc zero)) ∷ s) n acc key out = parse_from s 0 [] acc out
parse_from (suc (suc (suc (suc zero))) ∷ s) n acc key out =
    parse_from s 0 [] [] (out ++ (key, text acc) ∷ [])
parse_from (suc (suc (suc (suc (suc c)))) ∷ s) n acc key out =
    parse_from s 0 [] [] (out ++ (key, number n) ∷ [])

unfoldable pub unary : Library
unfolding members parse_from
unary = record {
  hmac_sha256 = λ k d. map (λ x. x % 256) (k ++ d);
  decode_block = decode_block;
  write = λ o. 0 ∷ (members o ++ (10 ∷ []));
  parse = λ s. some (parse_from s 0 [] [] []);
  as_string = λ c. elim c [ text v ↦ v | number n ↦ [] ];
  as_int64 = λ c. elim c [ text v ↦ 0 | number n ↦ n ];
}

parse_from-ones :
    (m n : ℕ) (s acc key : Bytes) (out : Object)
    → parse_from (ones m s) n acc key out ≡ parse_from s (n + m) acc key out
unfolding parse_from ones
parse_from-ones zero n s acc key out = ap (λ (k : ℕ). parse_from s k acc key out) (omega arith)
parse_from-ones (suc m) n s acc key out =
    parse_from-ones m (suc n) s acc key out
    ∙ ap (λ (k : ℕ). parse_from s k acc key out) (omega arith)

from_zero : (n : ℕ) → 0 + n ≡ n
from_zero n = omega arith

parse_from-chars :
    (v s acc key : Bytes) (out : Object)
    → parse_from (chars v s) 0 acc key out ≡ parse_from s 0 (acc ++ v) key out
unfolding parse_from chars
parse_from-chars [] s acc key out = rw append-nil refl
parse_from-chars (c ∷ v) s acc key out =
    parse_from-ones c 0 (2 ∷ chars v s) acc key out
    ∙ (ap (λ (n : ℕ). parse_from (2 ∷ chars v s) n acc key out) (from_zero c)
        ∙ (parse_from-chars v s (acc ++ (c ∷ [])) key out
            ∙ ap (λ (t : Bytes). parse_from s 0 t key out) (append_assoc acc (c ∷ []) v)))

parse_from-number :
    (n : ℕ) (s key : Bytes) (out : Object)
    → parse_from (ones n (5 ∷ s)) 0 [] key out
      ≡ parse_from s 0 [] [] (out ++ ((key, number n) ∷ []))
unfolding parse_from
parse_from-number n s key out =
    parse_from-ones n 0 (5 ∷ s) [] key out
    ∙ ap (λ (m : ℕ). parse_from s 0 [] [] (out ++ ((key, number m) ∷ []))) (from_zero n)

parse_from-members : (o out : Object) → parse_from (members o) 0 [] [] out ≡ out ++ o
unfolding parse_from members
parse_from-members [] out = rw append-nil refl
parse_from-members ((k, text v) ∷ o) out =
    parse_from-chars k (3 ∷ chars v (4 ∷ members o)) [] [] out
    ∙ (parse_from-chars v (4 ∷ members o) [] k out
        ∙ (parse_from-members o (out ++ ((k, text v) ∷ []))
            ∙ append_assoc out ((k, text v) ∷ []) o))
parse_from-members ((k, number n) ∷ o) out =
    parse_from-chars k (3 ∷ ones n (5 ∷ members o)) [] [] out
    ∙ (parse_from-number n (members o) k out
        ∙ (parse_from-members o (out ++ ((k, number n) ∷ []))
            ∙ append_assoc out ((k, number n) ∷ []) o))

strip_newline-append : (s : Bytes) → strip_newline (s ++ (10 ∷ [])) ≡ s
unfolding strip_newline
strip_newline-append [] = refl
strip_newline-append (c ∷ []) = refl
strip_newline-append (c ∷ d ∷ s) = ap (λ (t : Bytes). c ∷ t) (strip_newline-append (d ∷ s))

ones-small : (n : ℕ) (s : Bytes) → All (λ x. x < 256) s → All (λ x. x < 256) (ones n s)
unfolding ones
ones-small zero s h = h
ones-small (suc n) s h = (omega arith, ones-small n s h)

chars-small : (v s : Bytes) → All (λ x. x < 256) s → All (λ x. x < 256) (chars v s)
unfolding chars
chars-small [] s h = h
chars-small (c ∷ v) s h = ones-small c (2 ∷ chars v s) (omega arith, chars-small v s h)

members-small : (o : Object) → All (λ x. x < 256) (members o)
unfolding members
members-small [] = tt
members-small ((k, text v) ∷ o) =
    chars-small k _ (omega arith, chars-small v _ (omega arith, members-small o))
members-small ((k, number n) ∷ o) =
    chars-small k _ (omega arith, ones-small n _ (omega arith, members-small o))

bytes-small : (s : Bytes) → All (λ x. x < 256) (map (λ x. x % 256) s)
bytes-small [] = tt
bytes-small (c ∷ s) = (omega arith, bytes-small s)

pub unary_laws : IsLawful unary
unfolding unary strip_newline
unary_laws = record {
  blocks = decode_block-DecodesBlocks;
  hmac_bytes = λ k d. bytes-small (k ++ d);
  write_bytes = λ o. rw (strip_newline-append (0 ∷ members o)) (omega arith, members-small o);
  write_some = λ o. rw (strip_newline-append (0 ∷ members o)) (λ h. absurd (ground arith));
  parse-write = λ o. (
    o,
    ap (λ (t : Bytes). some (parse_from t 0 [] [] [])) (strip_newline-append (0 ∷ members o))
        ∙ ap some (unfold parse_from in parse_from-members o []),
    λ k. refl,
  );
  as_string-text = λ v. refl;
  as_int64-number = λ n. refl;
}
