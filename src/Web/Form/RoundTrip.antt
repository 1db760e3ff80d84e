-- ===== src/Web/Form/RoundTrip.antt =====
-- `parseMultipart` reads back what a browser posts.
use cppadmin.Base.{
  ℕ, zero, suc, ◌+◌, ◌≤◌, ◌≡◌, refl, ap, ◌∙◌, sym, Bytes, List, [], ◌∷◌, ◌++◌, map, All, some,
  some_inj, length, arith, starts_with,
}
use cppadmin.Base.Search.{split_on-here, split_on-is_free}
use cppadmin.Web.Form.{part_of, add_parts, dashes, run_parts, parse_multipart}
use cppadmin.Web.Form.Encoding.{
  Field, head_of, content_of, part_for, IsPostable, encode, encode_rest, line_end,
}
use cppadmin.Web.Form.Headers.{part_of-head_of, split_on-head_of, head_of-opened}
use cppadmin.Web.Form.Rounds.{run_parts-next, run_parts-closed, parse_multipart_terminates}

run_parts-encode_rest :
    (n : ℕ) (boundary : Bytes) (fs : List Field)
    → suc (length fs) ≤ n
    → All (IsPostable boundary) fs
    → run_parts n (dashes ++ boundary) (encode_rest (dashes ++ boundary) fs)
      ≡ some (map part_for fs)
unfolding encode_rest starts_with
run_parts-encode_rest zero boundary fs p q = ground arith
run_parts-encode_rest (suc n) boundary [] p q = run_parts-closed n (dashes ++ boundary) _ refl
run_parts-encode_rest (suc n) boundary (f ∷ fs) p ((named, free), qs) =
    let delim = dashes ++ boundary in
    let rest = encode_rest delim fs in
    let content = content_of f ++ ((line_end ++ delim) ++ rest) in
    run_parts-next n delim _ (head_of f) content (content_of f) rest (head_of-opened f _)
      (split_on-head_of f content named)
      (split_on-is_free b'\r' (b'\n' ∷ delim) (content_of f) rest free)
    ∙ ap (add_parts (part_of (head_of f) (content_of f)))
        (run_parts-encode_rest n boundary fs (omega arith) qs)
    ∙ ap (λ ps. some (ps ++ map part_for fs)) (part_of-head_of f named)

-- The parser gives back the inputs of a posted form, one part for each in order, whatever the media
-- types of its files, where no name or file name has a quote or a return, no name has `=`, no media
-- type has a return, and no content has the boundary.
pub parse_multipart-encode :
    (boundary : Bytes) (fs : List Field)
    → All (IsPostable boundary) fs
    → parse_multipart (encode boundary fs) boundary ≡ map part_for fs
unfolding encode
parse_multipart-encode boundary fs p =
    let delim = dashes ++ boundary in
    let rounds = length (encode boundary fs) + suc (length fs) in
    some_inj (
      sym (
        parse_multipart_terminates rounds (encode boundary fs) boundary [] (encode_rest delim fs)
          (split_on-here b'-' (b'-' ∷ boundary) (encode_rest delim fs)) (omega arith))
      ∙ run_parts-encode_rest rounds boundary fs (omega arith) p)
