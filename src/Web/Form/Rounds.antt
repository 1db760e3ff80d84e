-- ===== src/Web/Form/Rounds.antt =====
-- `parseMultipart` ends.
use cppadmin.Base.{
  ℕ, zero, suc, ◌≤◌, ◌≡◌, Bytes, List, [], ◌∷◌, ◌++◌, none, some, length, arith, Option-cases, inl,
  inr, starts_with, Bool-cases, true, false, ◌∙◌, ap, ◌⊎◌,
}
use cppadmin.Base.Search.{split_on, split_on-shorter}
use cppadmin.Web.Form.{Part, part_of, add_parts, blank_line, dashes, run_parts, parse_multipart}

pub run_parts-closed :
    (n : ℕ) (delim rest : Bytes)
    → starts_with rest dashes ≡ true
    → run_parts (suc n) delim rest ≡ some []
unfolding run_parts
run_parts-closed n delim rest p = ground arith

pub run_parts-next :
    (n : ℕ) (delim rest headers content value next : Bytes)
    → starts_with rest dashes ≡ false
    → split_on blank_line rest ≡ some (headers, content)
    → split_on (b'\r' ∷ b'\n' ∷ delim) content ≡ some (value, next)
    → run_parts (suc n) delim rest ≡ add_parts (part_of headers value) (run_parts n delim next)
unfolding run_parts
run_parts-next n delim rest headers content value next p q r = ground arith

run_parts-no_head :
    (n : ℕ) (delim rest : Bytes)
    → split_on blank_line rest ≡ none
    → run_parts (suc n) delim rest ≡ some []
unfolding run_parts
run_parts-no_head n delim rest p = ground arith

run_parts-no_end :
    (n : ℕ) (delim rest headers content : Bytes)
    → split_on blank_line rest ≡ some (headers, content)
    → split_on (b'\r' ∷ b'\n' ∷ delim) content ≡ none
    → run_parts (suc n) delim rest ≡ some []
unfolding run_parts
run_parts-no_end n delim rest headers content p q = ground arith

-- The loop ends in this round.
abbrev Ends : Bytes → Bytes → Type 0
Ends delim rest = (n : ℕ) → run_parts (suc n) delim rest ≡ some []

-- The loop adds parts and goes on with a shorter rest.
abbrev Continues : Bytes → Bytes → Type 0
Continues delim rest =
    (found : List Part) × (next : Bytes) × (suc (length next) ≤ length rest)
    × ((n : ℕ) → run_parts (suc n) delim rest ≡ add_parts found (run_parts n delim next))

run_parts-value :
    (delim rest headers content : Bytes)
    → starts_with rest dashes ≡ false
    → split_on blank_line rest ≡ some (headers, content)
    → Ends delim rest ⊎ Continues delim rest
run_parts-value delim rest headers content p q =
    let shorter = split_on-shorter b'\r' (b'\n' ∷ b'\r' ∷ b'\n' ∷ []) rest headers content q in
    elim (Option-cases (split_on (b'\r' ∷ b'\n' ∷ delim) content)) [
      | inl no_end ↦ inl (λ n. run_parts-no_end n delim rest headers content q no_end)
      | inr ((value, next), r) ↦ inr (
        part_of headers value,
        next,
        (let less = split_on-shorter b'\r' (b'\n' ∷ delim) content value next r in omega arith),
        λ n. run_parts-next n delim rest headers content value next p q r,
      )
    ]

run_parts-cases : (delim rest : Bytes) → Ends delim rest ⊎ Continues delim rest
run_parts-cases delim rest = elim (Bool-cases (starts_with rest dashes)) [
  | inl closed ↦ inl (λ n. run_parts-closed n delim rest closed)
  | inr opened ↦ elim (Option-cases (split_on blank_line rest)) [
    | inl no_head ↦ inl (λ n. run_parts-no_head n delim rest no_head)
    | inr ((headers, content), q) ↦ run_parts-value delim rest headers content opened q
  ]
]

-- More rounds than the rest has bytes end the loop, and still more change nothing.
pub run_parts-enough :
    (n m : ℕ) (delim rest : Bytes)
    → suc (length rest) ≤ n
    → n ≤ m
    → (ps : List Part) × ((run_parts n delim rest ≡ some ps) × (run_parts m delim rest ≡ some ps))
run_parts-enough zero m delim rest p q = ground arith
run_parts-enough (suc n) zero delim rest p q = ground arith
run_parts-enough (suc n) (suc m) delim rest p q = elim (run_parts-cases delim rest) [
  | inl ends ↦ ([], (ends n, ends m))
  | inr (found, next, less, step) ↦
      let (ps, (first, second)) = run_parts-enough n m delim next (omega arith) (omega arith) in
      (found ++ ps, (step n ∙ ap (add_parts found) first, step m ∙ ap (add_parts found) second))
]

-- The loop over a body ends within as many rounds as the body has bytes, and the parts it gives
-- then are what `parse_multipart` returns, however many more rounds it may take.
pub parse_multipart_terminates :
    (rounds : ℕ) (body boundary preamble rest : Bytes)
    → split_on (dashes ++ boundary) body ≡ some (preamble, rest)
    → length body ≤ rounds
    → run_parts rounds (dashes ++ boundary) rest ≡ some (parse_multipart body boundary)
unfolding parse_multipart
parse_multipart_terminates rounds body boundary preamble rest found enough =
    let shorter = split_on-shorter b'-' (b'-' ∷ boundary) body preamble rest found in
    let (ps, (first, second)) =
      run_parts-enough (suc (length rest)) rounds (dashes ++ boundary) rest (omega arith)
        (omega arith) in
    ground arith
