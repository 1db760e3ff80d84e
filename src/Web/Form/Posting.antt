-- ===== src/Web/Form/Posting.antt =====
-- What `form::get` and `form::file` give for a form that a browser posts.
use mathlib.Core.List.{append-nil}
use cppadmin.Base.{
  ◌≡◌, ◌≢◌, refl, ap, ◌∙◌, Bytes, ℕ, subst, bytes, true, false, not, ◌&&◌, List, [], ◌∷◌, ◌++◌, map,
  All, NoByte, Option, none, some, is_empty, is_empty_lem, ◌==◌, bytes_eq, if◌then◌else◌, arith,
}
use cppadmin.Base.Search.{
  split_on, split_on-here, never, clashes, NoByte-Skips, Skips-here, never-Skips,
}
use cppadmin.Web.Form.{
  FormRequest, boundary_of, unquoted, up_to, trim_end, is_blank, is_multipart, parsed, parts_of,
  text_field, file_field, form_get, form_file,
}
use cppadmin.Web.Form.Encoding.{Field, text_input, file_input, part_for, IsPostable, encode}
use cppadmin.Web.Form.RoundTrip.{parse_multipart-encode}

-- The value of the first text input of the name; nothing if there is none.
unfoldable pub text_value : Bytes → List Field → Bytes
text_value key [] = []
text_value key (text_input name value ∷ fs) =
    let rest = text_value key fs in if name == key then value else rest
text_value key (file_input name filename mime content ∷ fs) = text_value key fs

-- The first file input of the name that was not left alone.
unfoldable pub upload : Bytes → List Field → Option (Bytes × Bytes)
upload key [] = none
upload key (text_input name value ∷ fs) = upload key fs
upload key (file_input name filename mime content ∷ fs) =
    let rest = upload key fs in
    if name == key && (not (is_empty filename) && not (is_empty content))
    then some (content, filename)
    else rest

-- A boundary that needs no quotes.
abbrev pub IsBoundary : Bytes → Type 0
IsBoundary b = (b ≢ []) × (NoByte b';' b × (NoByte b'"' b × All (λ c. is_blank c ≡ false) b))

abbrev content_type : Bytes → Bytes
content_type b = bytes "multipart/form-data; " ++ (bytes "boundary=" ++ b)

abbrev pub posted : Bytes → List Field → (Bytes → Bytes) → FormRequest
posted boundary fs get_parameter = record {
  content_type = content_type boundary;
  body = encode boundary fs;
  get_parameter = get_parameter;
  parts = none;
}

trim_end-kept : (s : Bytes) → All (λ c. is_blank c ≡ false) s → trim_end s ≡ s
unfolding trim_end
trim_end-kept [] p = refl
trim_end-kept (c ∷ s) (p, ps) = rw p (ap (λ t. c ∷ t) (trim_end-kept s ps))

up_to-NoByte : (b : ℕ) (s : Bytes) → NoByte b s → up_to b s ≡ s
unfolding split_on
up_to-NoByte b s p =
    let absent : split_on (b ∷ []) s ≡ none =
      subst (λ t. split_on (b ∷ []) t ≡ none) (append-nil s) (NoByte-Skips b [] s p []) in
    ground arith

unquoted-kept : (b : Bytes) → IsBoundary b → unquoted b ≡ b
unfolding unquoted
unquoted-kept [] (p, (q, (r, u))) = refl
unquoted-kept (c ∷ b) (p, (q, (r, u))) =
    let whole = up_to-NoByte b';' (c ∷ b) q in
    let kept = trim_end-kept (c ∷ b) u in let (no_quote, _) = r in ground arith

boundary_of-found :
    (content_type preamble b : Bytes)
    → split_on (bytes "boundary=") content_type ≡ some (preamble, b)
    → boundary_of content_type ≡ unquoted b
unfolding boundary_of
boundary_of-found content_type preamble b p = ground arith

boundary_of-posted : (b : Bytes) → IsBoundary b → boundary_of (content_type b) ≡ b
unfolding never clashes bytes
boundary_of-posted b p =
    boundary_of-found _ (bytes "multipart/form-data; ") b (
      Skips-here b'b' (bytes "oundary=") (bytes "multipart/form-data; ") b
        (never-Skips b'b' (bytes "oundary=") (bytes "multipart/form-data; ") refl))
    ∙ unquoted-kept b p

is_multipart-posted :
    (b : Bytes) (fs : List Field) (g : Bytes → Bytes) → is_multipart (posted b fs g) ≡ true
unfolding is_multipart bytes
is_multipart-posted b fs g =
    let found = split_on-here b'm' (bytes "ultipart/form-data") (bytes "; boundary=" ++ b) in
    ground arith

parsed-posted :
    (b : Bytes) (fs : List Field) (g : Bytes → Bytes)
    → IsBoundary b
    → All (IsPostable b) fs
    → parsed (posted b fs g) ≡ map part_for fs
unfolding parsed
parsed-posted b fs g p q =
    let multi = is_multipart-posted b fs g in
    let same = boundary_of-posted b p in
    let read = parse_multipart-encode b fs q in
    let (some_byte, _) = p in rw (multi, same, is_empty_lem b some_byte) read

text_field-posted :
    (key : Bytes) (fs : List Field) → text_field key (map part_for fs) ≡ text_value key fs
unfolding text_field text_value
text_field-posted key [] = refl
text_field-posted key (text_input name value ∷ fs) = ground (arith, text_field-posted key fs)
text_field-posted key (file_input name filename mime content ∷ fs) =
    ground (arith, text_field-posted key fs)

file_field-posted :
    (key : Bytes) (fs : List Field) → file_field key (map part_for fs) ≡ upload key fs
unfolding file_field upload
file_field-posted key [] = refl
file_field-posted key (text_input name value ∷ fs) = ground (arith, file_field-posted key fs)
file_field-posted key (file_input name filename mime content ∷ fs) =
    ground (arith, file_field-posted key fs)

-- The request when its parts have been read.
abbrev pub with_parts : Bytes → List Field → (Bytes → Bytes) → FormRequest
with_parts boundary fs g = record (posted boundary fs g) { parts = some (map part_for fs) }

module _ (boundary : Bytes) (fs : List Field) (g : Bytes → Bytes) (b : IsBoundary boundary)
    (p : All (IsPostable boundary) fs) where
  parts_of-posted : parts_of (posted boundary fs g) ≡ (map part_for fs, with_parts boundary fs g)
  unfolding parts_of
  parts_of-posted = let parts = parsed-posted boundary fs g b p in rw parts refl

  form_get-read :
      (key : Bytes) (req next : FormRequest)
      → req.get_parameter key ≡ []
      → is_multipart req ≡ true
      → parts_of req ≡ (map part_for fs, next)
      → form_get key req ≡ (text_value key fs, next)
  unfolding form_get
  form_get-read key req next q multi parts = rw (q, multi, parts, text_field-posted key fs) refl

  form_get-posted :
      (key : Bytes)
      → g key ≡ []
      → form_get key (posted boundary fs g) ≡ (text_value key fs, with_parts boundary fs g)
  form_get-posted key q =
      form_get-read key (posted boundary fs g) (with_parts boundary fs g) q
        (is_multipart-posted boundary fs g) parts_of-posted

  -- Parts that the request holds are used, whatever the body.
  form_file-with_parts :
      (key body : Bytes)
      → form_file key (record (with_parts boundary fs g) { body = body })
        ≡ (upload key fs, record (with_parts boundary fs g) { body = body })
  unfolding form_file parts_of is_multipart
  form_file-with_parts key body =
      let multi : is_multipart (record (with_parts boundary fs g) { body = body }) ≡ true =
        is_multipart-posted boundary fs g in
      rw (multi, file_field-posted key fs) refl

-- For a posted form with no quote or return in a name or file name, no `=` in a name, no return in a
-- media type and the boundary in no content, where the boundary needs no quotes, `form::get` gives the first text input of the key, unless a parameter of the
-- request has the key, and leaves the parts of the form in the request and nothing else. A
-- later `form::file` gives the first file input of its key with a file chosen, where an input left
-- alone is no upload; it takes the parts from the request, whatever the body then is, and changes
-- nothing.
pub form_file-form_get :
    (boundary : Bytes) (fs : List Field) (get_parameter : Bytes → Bytes) (key file_key body : Bytes)
    → IsBoundary boundary
    → All (IsPostable boundary) fs
    → get_parameter key ≡ []
    → (form_get key (posted boundary fs get_parameter)
        ≡ (text_value key fs, with_parts boundary fs get_parameter))
      × (form_file file_key
            (record (form_get key (posted boundary fs get_parameter)).1 { body = body })
          ≡ (upload file_key fs, record (with_parts boundary fs get_parameter) { body = body }))
form_file-form_get boundary fs g key file_key body b p q =
    let got = form_get-posted boundary fs g b p key q in
    (
      got,
      ap (λ (r : Bytes × FormRequest). form_file file_key (record r.1 { body = body })) got
          ∙ form_file-with_parts boundary fs g b p file_key body,
    )
