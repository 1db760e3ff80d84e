-- ===== src/Web/Form/Encoding.antt =====
-- The multipart body that a browser posts for a form: the independent description that the parser
-- of FormHelper.h is compared with.
use cppadmin.Base.{◌≡◌, Bytes, bytes, true, false, List, [], ◌∷◌, ◌++◌, NoByte}
use cppadmin.Base.Search.{is_free}
use cppadmin.Web.Form.{Part, blank_line, dashes}

-- An input of a form: a name and a value, or a name, a file name, a media type and a content. A
-- file input that was left alone has an empty file name and content.
pub data Field : Type 0 where
  text_input : Bytes → Bytes → Field
  file_input : Bytes → Bytes → Bytes → Bytes → Field

abbrev pub disposition : Bytes
disposition = bytes "\r\nContent-Disposition: form-data; "

abbrev pub type_line : Bytes
type_line = bytes "\r\nContent-Type: "

unfoldable pub head_of : Field → Bytes
head_of (text_input name value) = disposition ++ (bytes "name=\"" ++ (name ++ (b'"' ∷ [])))
head_of (file_input name filename mime content) =
    disposition
    ++ (bytes "name=\""
        ++ (name
            ++ (bytes "\"; "
                ++ (bytes "filename=\"" ++ (filename ++ (b'"' ∷ (type_line ++ mime)))))))

abbrev pub content_of : Field → Bytes
content_of (text_input name value) = value
content_of (file_input name filename mime content) = content

abbrev pub part_for : Field → Part
part_for (text_input name value) = record {
  name = name;
  filename = [];
  data_of = value;
  is_file = false;
}
part_for (file_input name filename mime content) = record {
  name = name;
  filename = filename;
  data_of = content;
  is_file = true;
}

abbrev pub line_end : Bytes
line_end = b'\r' ∷ b'\n' ∷ []

unfoldable pub encode_rest : Bytes → List Field → Bytes
encode_rest delim [] = dashes ++ line_end
encode_rest delim (f ∷ fs) =
    head_of f ++ (blank_line ++ (content_of f ++ ((line_end ++ delim) ++ encode_rest delim fs)))

unfoldable pub encode : Bytes → List Field → Bytes
encode boundary fs = (dashes ++ boundary) ++ encode_rest (dashes ++ boundary) fs

-- No byte that a browser escapes in a name, and no `=`. A media type has no return.
abbrev IsName : Bytes → Type 0
IsName s = NoByte b'\r' s × (NoByte b'"' s × NoByte b'=' s)

abbrev IsFilename : Bytes → Type 0
IsFilename s = NoByte b'\r' s × NoByte b'"' s

abbrev pub HasNames : Field → Type 0
HasNames (text_input name value) = IsName name
HasNames (file_input name filename mime content) =
    IsName name × (IsFilename filename × NoByte b'\r' mime)

-- The boundary is none of the content's lines, as the browser picks it.
abbrev pub IsPostable : Bytes → Field → Type 0
IsPostable boundary f =
    HasNames f × (is_free (line_end ++ (dashes ++ boundary)) (content_of f) ≡ true)
