-- ===== src/Web/Form/Headers.antt =====
-- The headers of a posted part: where they end and what `attrOf` finds in them.
use cppadmin.Base.{
  ℕ, ◌≡◌, refl, ap, ◌∙◌, Bytes, bytes, true, false, [], ◌∷◌, ◌++◌, NoByte, no_byte, no_byte_iff,
  arith, Option, none, some, starts_with,
}
use cppadmin.Base.Search.{
  split_on, in_front, never, clashes, split_on-step, in_front-nil, in_front-in_front, Skips,
  never-Skips, NoByte-Skips, Skips-append, Skips-here,
}
use cppadmin.Web.Form.{part_of, attr_of, blank_line, dashes, or_nothing, is_some}
use cppadmin.Web.Form.Encoding.{
  Field, text_input, file_input, head_of, content_of, part_for, type_line, disposition, HasNames,
}

-- No key that ends in `="` starts in a name without `=` that a quote follows.
starts_with-name :
    (s t key : Bytes)
    → NoByte b'=' s
    → NoByte b'"' key
    → starts_with (s ++ (b'"' ∷ t)) (key ++ (b'=' ∷ b'"' ∷ [])) ≡ false
unfolding starts_with
starts_with-name [] t [] p q = refl
starts_with-name [] t (k ∷ key) p q = ground arith
starts_with-name (c ∷ s) t [] p q = ground arith
starts_with-name (c ∷ s) t (k ∷ key) (p, ps) (q, qs) =
    ground (arith, starts_with-name s t key ps qs)

split_on-name :
    (k : ℕ) (key s t : Bytes)
    → NoByte b'=' s
    → NoByte b'"' (k ∷ key)
    → split_on (k ∷ key ++ (b'=' ∷ b'"' ∷ [])) (s ++ (b'"' ∷ t))
      ≡ in_front s (split_on (k ∷ key ++ (b'=' ∷ b'"' ∷ [])) (b'"' ∷ t))
split_on-name k key [] t p q = in_front-nil _
split_on-name k key (c ∷ s) t (p, ps) q =
    split_on-step k c (key ++ (b'=' ∷ b'"' ∷ [])) (s ++ (b'"' ∷ t))
      (starts_with-name (c ∷ s) t (k ∷ key) (p, ps) q)
    ∙ ap (in_front (c ∷ [])) (split_on-name k key s t ps q)
    ∙ in_front-in_front (c ∷ []) s _

-- What stands between the quotes behind the key.
attr_of-quoted :
    (headers attr preamble value t : Bytes)
    → split_on (attr ++ (b'=' ∷ b'"' ∷ [])) headers ≡ some (preamble, value ++ (b'"' ∷ t))
    → NoByte b'"' value
    → attr_of headers attr ≡ some value
unfolding attr_of
attr_of-quoted headers attr preamble value t found p =
    let quoted = Skips-here b'"' [] value t (NoByte-Skips b'"' [] value p) in ground arith

attr_of-absent :
    (headers attr : Bytes)
    → split_on (attr ++ (b'=' ∷ b'"' ∷ [])) headers ≡ none
    → attr_of headers attr ≡ none
unfolding attr_of
attr_of-absent headers attr p = ground arith

attr_of-name :
    (name t : Bytes)
    → NoByte b'"' name
    → attr_of (disposition ++ (bytes "name=\"" ++ (name ++ (b'"' ∷ t)))) (bytes "name") ≡ some name
unfolding bytes never clashes
attr_of-name name t p =
    attr_of-quoted _ (bytes "name") disposition name t
      (Skips-here b'n' (bytes "ame=\"") disposition (name ++ (b'"' ∷ t))
        (never-Skips b'n' (bytes "ame=\"") disposition refl))
      p

-- The name of the part has no `=`, so that `filename="` is found behind it only.
split_on-filename :
    (name t : Bytes)
    → NoByte b'=' name
    → split_on (bytes "filename=\"") (disposition ++ (bytes "name=\"" ++ (name ++ (b'"' ∷ t))))
      ≡ in_front
          (disposition ++ (bytes "name=\"" ++ name))
          (split_on (bytes "filename=\"") (b'"' ∷ t))
unfolding bytes never clashes no_byte
split_on-filename name t p =
    never-Skips b'f' (bytes "ilename=\"") (disposition ++ bytes "name=\"") refl (name ++ (b'"' ∷ t))
    ∙ ap (in_front (disposition ++ bytes "name=\"")) (
        split_on-name b'f' (bytes "ilename") name t p
          ((no_byte_iff b'"' (bytes "filename")).0 refl))
    ∙ in_front-in_front (disposition ++ bytes "name=\"") name _

attr_of-no_filename :
    (name : Bytes)
    → NoByte b'=' name
    → attr_of (disposition ++ (bytes "name=\"" ++ (name ++ (b'"' ∷ [])))) (bytes "filename") ≡ none
unfolding bytes split_on starts_with
attr_of-no_filename name p = attr_of-absent _ (bytes "filename") (split_on-filename name [] p)

attr_of-filename :
    (name filename t : Bytes)
    → NoByte b'=' name
    → NoByte b'"' filename
    → attr_of
        (disposition
          ++ (bytes "name=\""
              ++ (name ++ (bytes "\"; " ++ (bytes "filename=\"" ++ (filename ++ (b'"' ∷ t)))))))
        (bytes "filename")
      ≡ some filename
unfolding bytes never clashes
attr_of-filename name filename t p q =
    attr_of-quoted _ (bytes "filename") (disposition ++ (bytes "name=\"" ++ name) ++ bytes "\"; ")
      filename t
      (split_on-filename name (bytes "; filename=\"" ++ (filename ++ (b'"' ∷ t))) p
        ∙ ap (in_front (disposition ++ (bytes "name=\"" ++ name))) (
            Skips-here b'f' (bytes "ilename=\"") (bytes "\"; ") (filename ++ (b'"' ∷ t))
              (never-Skips b'f' (bytes "ilename=\"") (bytes "\"; ") refl)))
      q

part_of-named :
    (headers content name : Bytes) (o : Option Bytes)
    → attr_of headers (bytes "name") ≡ some name
    → attr_of headers (bytes "filename") ≡ o
    → part_of headers content
      ≡ record { name = name; filename = or_nothing o; data_of = content; is_file = is_some o } ∷ []
unfolding part_of
part_of-named headers content name o p q = rw (← q) (ground arith)

pub part_of-head_of :
    (f : Field) → HasNames f → part_of (head_of f) (content_of f) ≡ part_for f ∷ []
unfolding head_of attr_of bytes
part_of-head_of (text_input name value) (p, (q, r)) =
    part_of-named _ value name none (attr_of-name name [] q) (attr_of-no_filename name r)
part_of-head_of (file_input name filename mime content) ((p, (q, r)), ((u, v), w)) =
    part_of-named _ content name (some filename) (attr_of-name name _ q)
      (attr_of-filename name filename _ r v)

literal-Skips : (s : Bytes) → never blank_line s ≡ true → Skips blank_line s
literal-Skips s p = never-Skips b'\r' (b'\n' ∷ b'\r' ∷ b'\n' ∷ []) s p

-- The headers have no blank line.
head_of-Skips : (f : Field) → HasNames f → Skips blank_line (head_of f)
unfolding head_of never clashes bytes
head_of-Skips (text_input name value) (p, (q, r)) =
    Skips-append blank_line (disposition ++ bytes "name=\"") _
      (literal-Skips (disposition ++ bytes "name=\"") refl)
      (Skips-append blank_line name _ (NoByte-Skips _ _ name p) (literal-Skips (b'"' ∷ []) refl))
head_of-Skips (file_input name filename mime content) ((p, (q, r)), ((u, v), w)) =
    Skips-append blank_line (disposition ++ bytes "name=\"") _
      (literal-Skips (disposition ++ bytes "name=\"") refl)
      (Skips-append blank_line name _ (NoByte-Skips _ _ name p) (
        Skips-append blank_line (bytes "\"; filename=\"") _
          (literal-Skips (bytes "\"; filename=\"") refl)
          (Skips-append blank_line filename _ (NoByte-Skips _ _ filename u) (
            Skips-append blank_line (b'"' ∷ type_line) mime (literal-Skips (b'"' ∷ type_line) refl)
              (NoByte-Skips _ _ mime w)))))

pub split_on-head_of :
    (f : Field) (t : Bytes)
    → HasNames f
    → split_on blank_line (head_of f ++ (blank_line ++ t)) ≡ some (head_of f, t)
split_on-head_of f t h = Skips-here b'\r' (b'\n' ∷ b'\r' ∷ b'\n' ∷ []) _ t (head_of-Skips f h)

pub head_of-opened : (f : Field) (t : Bytes) → starts_with (head_of f ++ t) dashes ≡ false
unfolding head_of bytes starts_with
head_of-opened (text_input name value) t = refl
head_of-opened (file_input name filename mime content) t = refl
