-- ===== src/Web/Form.antt =====
-- include/helpers/FormHelper.h. A position in the body is the rest of the body from there on, and
-- `size_t` holds every position of a body that is in memory. `get_parameter` stands for Drogon's
-- `getParameter`.
pub mod Rounds
pub mod Encoding
pub mod Headers
pub mod RoundTrip
pub mod Posting
mod Tests
use cppadmin.Base.{
  ℕ, zero, suc, Bytes, bytes, Bool, true, false, not, ◌&&◌, ◌||◌, List, [], ◌∷◌, ◌++◌, length,
  nat_beq, is_empty, starts_with, Option, none, some, ◌==◌, bytes_eq, bytes_beq, if◌then◌else◌,
}
use cppadmin.Base.Search.{split_on}

pub record Part : Type 0 where
  pub name : Bytes
  pub filename : Bytes
  pub data_of : Bytes
  pub is_file : Bool

-- The text from a key on, without the key.
abbrev pub behind : Option (Bytes × Bytes) → Option Bytes
behind none = none
behind (some (a, b)) = some b

abbrev pub before : Option (Bytes × Bytes) → Option Bytes
before none = none
before (some (a, b)) = some a

abbrev pub or_nothing : Option Bytes → Bytes
or_nothing none = []
or_nothing (some s) = s

-- The text up to the first `b`, or all of it.
abbrev pub up_to : ℕ → Bytes → Bytes
up_to b s = elim (split_on (b ∷ []) s) [ none ↦ s | some (t, _) ↦ t ]

-- The loop that takes blanks and line ends off the back.
abbrev pub is_blank : ℕ → Bool
is_blank c = nat_beq c b' ' || (nat_beq c b'\r' || nat_beq c b'\n')

unfoldable pub trim_end : Bytes → Bytes
trim_end [] = []
trim_end (c ∷ s) = let rest = trim_end s in if is_blank c && is_empty rest then [] else c ∷ rest

unfoldable pub unquoted : Bytes → Bytes
unfolding trim_end
unquoted [] = []
unquoted (c ∷ b) =
    if nat_beq c b'"'
    then or_nothing (before (split_on (b'"' ∷ []) b))
    else trim_end (up_to b';' (c ∷ b))

unfoldable pub boundary_of : Bytes → Bytes
unfolding unquoted split_on bytes
boundary_of content_type = elim (split_on (bytes "boundary=") content_type) [
  | none ↦ []
  | some (_, b) ↦ unquoted b
]

-- `none` where the code sets `present` to false.
unfoldable pub attr_of : Bytes → Bytes → Option Bytes
attr_of headers attr = elim (split_on (attr ++ (b'=' ∷ b'"' ∷ [])) headers) [
  | none ↦ none
  | some (_, value) ↦ before (split_on (b'"' ∷ []) value)
]

abbrev pub is_some : Option Bytes → Bool
is_some none = false
is_some (some s) = true

-- One part, kept only if it has a name.
unfoldable pub part_of : Bytes → Bytes → List Part
unfolding attr_of
part_of headers content = elim (attr_of headers (bytes "name")) [
  | none ↦ []
  | some name ↦
      record {
        name = name;
        filename = or_nothing (attr_of headers (bytes "filename"));
        data_of = content;
        is_file = is_some (attr_of headers (bytes "filename"));
      }
      ∷ []
]

abbrev pub add_parts : List Part → Option (List Part) → Option (List Part)
add_parts ps none = none
add_parts ps (some qs) = some (ps ++ qs)

abbrev pub blank_line : Bytes
blank_line = b'\r' ∷ b'\n' ∷ b'\r' ∷ b'\n' ∷ []

abbrev pub dashes : Bytes
dashes = b'-' ∷ b'-' ∷ []

-- The loop of `parseMultipart`: `rest` is the body behind a delimiter. `none` is a loop that has
-- not ended after so many rounds.
unfoldable pub run_parts : ℕ → Bytes → Bytes → Option (List Part)
run_parts zero delim rest = none
run_parts (suc rounds) delim rest =
    if starts_with rest dashes then some [] else elim (split_on blank_line rest) [
      | none ↦ some []
      | some (headers, content) ↦ elim (split_on (b'\r' ∷ b'\n' ∷ delim) content) [
        | none ↦ some []
        | some (value, next) ↦ add_parts (part_of headers value) (run_parts rounds delim next)
      ]
    ]

abbrev pub parts_or_nothing : Option (List Part) → List Part
parts_or_nothing none = []
parts_or_nothing (some ps) = ps

-- Each round takes a delimiter off the body, so its length and one more is enough.
unfoldable pub parse_multipart : Bytes → Bytes → List Part
unfolding run_parts
parse_multipart body boundary = elim (split_on (dashes ++ boundary) body) [
  | none ↦ []
  | some (_, rest) ↦ parts_or_nothing (run_parts (suc (length rest)) (dashes ++ boundary) rest)
]

-- What the helpers read of a request, and the attribute that keeps the parts.
pub record FormRequest : Type 0 where
  pub content_type : Bytes
  pub body : Bytes
  pub get_parameter : Bytes → Bytes
  pub parts : Option (List Part)

unfoldable pub is_multipart : FormRequest → Bool
is_multipart req = elim (split_on (bytes "multipart/form-data") req.content_type) [
  | none ↦ false
  | some _ ↦ true
]

unfoldable pub parsed : FormRequest → List Part
unfolding is_multipart parse_multipart boundary_of
parsed req =
    if is_multipart req && not (is_empty (boundary_of req.content_type))
    then parse_multipart req.body (boundary_of req.content_type)
    else []

unfoldable pub parts_of : FormRequest → List Part × FormRequest
unfolding parsed
parts_of req = elim req.parts [
  | some ps ↦ (ps, req)
  | none ↦ (parsed req, record req { parts = some (parsed req) })
]

unfoldable pub text_field : Bytes → List Part → Bytes
text_field key [] = []
text_field key (p ∷ ps) =
    let rest = text_field key ps in if not p.is_file && p.name == key then p.data_of else rest

unfoldable pub form_get : Bytes → FormRequest → Bytes × FormRequest
unfolding parts_of text_field is_multipart
form_get key req =
    if not (is_empty (req.get_parameter key))
    then (req.get_parameter key, req)
    else if not (is_multipart req)
    then ([], req)
    else (text_field key (parts_of req).0, (parts_of req).1)

-- The content and the name of the first upload under the key.
unfoldable pub file_field : Bytes → List Part → Option (Bytes × Bytes)
file_field key [] = none
file_field key (p ∷ ps) =
    let rest = file_field key ps in
    if not p.is_file || not (p.name == key)
    then rest
    else if is_empty p.filename || is_empty p.data_of
    then rest
    else some (p.data_of, p.filename)

unfoldable pub form_file : Bytes → FormRequest → Option (Bytes × Bytes) × FormRequest
unfolding parts_of file_field is_multipart
form_file key req =
    if not (is_multipart req)
    then (none, req)
    else (file_field key (parts_of req).0, (parts_of req).1)
