-- ===== src/Web/Form/Tests.antt =====
-- A form with a token, a file input left alone and an upload, posted and read.
use cppadmin.Base.{
  ◌≡◌, refl, arith, Bytes, bytes, List, [], ◌∷◌, ◌++◌, map, All, no_byte, no_byte_iff, length, some,
  starts_with, bytes_beq,
}
use cppadmin.Base.Search.{split_on, split_on-here, is_free}
use cppadmin.Web.Form.{dashes, run_parts, parse_multipart, form_get, form_file}
use cppadmin.Web.Form.Encoding.{
  Field, text_input, file_input, part_for, encode, encode_rest, HasNames, IsPostable,
}
use cppadmin.Web.Form.RoundTrip.{parse_multipart-encode}
use cppadmin.Web.Form.Rounds.{parse_multipart_terminates}
use cppadmin.Web.Form.Posting.{
  posted, with_parts, text_value, upload, IsBoundary, form_file-form_get,
}

abbrev boundary : Bytes
boundary = bytes "X"

abbrev form : List Field
form =
    text_input (bytes "_csrf") (bytes "t")
    ∷ file_input (bytes "logo") [] (bytes "application/octet-stream") []
    ∷ file_input (bytes "logo") (bytes "a.png") (bytes "image/png") (bytes "p")
    ∷ []

csrf_named : HasNames (text_input (bytes "_csrf") (bytes "t"))
unfolding bytes no_byte
csrf_named = (
  (no_byte_iff b'\r' (bytes "_csrf")).0 refl,
  ((no_byte_iff b'"' (bytes "_csrf")).0 refl, (no_byte_iff b'=' (bytes "_csrf")).0 refl),
)

logo_named : HasNames (file_input (bytes "logo") [] (bytes "application/octet-stream") [])
unfolding bytes no_byte
logo_named = (
  (
    (no_byte_iff b'\r' (bytes "logo")).0 refl,
    ((no_byte_iff b'"' (bytes "logo")).0 refl, (no_byte_iff b'=' (bytes "logo")).0 refl),
  ),
  ((tt, tt), (no_byte_iff b'\r' (bytes "application/octet-stream")).0 refl),
)

upload_named : HasNames (file_input (bytes "logo") (bytes "a.png") (bytes "image/png") (bytes "p"))
unfolding bytes no_byte
upload_named = (
  logo_named.0,
  (
    ((no_byte_iff b'\r' (bytes "a.png")).0 refl, (no_byte_iff b'"' (bytes "a.png")).0 refl),
    (no_byte_iff b'\r' (bytes "image/png")).0 refl,
  ),
)

form-IsPostable : All (IsPostable boundary) form
unfolding is_free bytes starts_with
form-IsPostable = ((csrf_named, refl), ((logo_named, refl), ((upload_named, refl), tt)))

boundary-IsBoundary : IsBoundary boundary
unfolding bytes no_byte
boundary-IsBoundary = (
  (λ h. absurd (ground arith)),
  ((no_byte_iff b';' (bytes "X")).0 refl, ((no_byte_iff b'"' (bytes "X")).0 refl, (refl, tt))),
)

parse_multipart-encode_example : parse_multipart (encode boundary form) boundary ≡ map part_for form
parse_multipart-encode_example = parse_multipart-encode boundary form form-IsPostable

starts :
    split_on (dashes ++ boundary) (encode boundary form)
    ≡ some ([], encode_rest (dashes ++ boundary) form)
unfolding encode
starts = split_on-here b'-' (b'-' ∷ boundary) (encode_rest (dashes ++ boundary) form)

parse_multipart_terminates_example :
    run_parts
      (length (encode boundary form))
      (dashes ++ boundary)
      (encode_rest (dashes ++ boundary) form)
    ≡ some (parse_multipart (encode boundary form) boundary)
parse_multipart_terminates_example =
    parse_multipart_terminates (length (encode boundary form)) (encode boundary form) boundary []
      (encode_rest (dashes ++ boundary) form) starts (omega arith)

form_file-form_get_example :
    (form_get (bytes "_csrf") (posted boundary form (λ key. []))
      ≡ (text_value (bytes "_csrf") form, with_parts boundary form (λ key. [])))
    × (form_file
          (bytes "logo")
          (record (form_get (bytes "_csrf") (posted boundary form (λ key. []))).1 { body = [] })
        ≡ (upload (bytes "logo") form, record (with_parts boundary form (λ key. [])) { body = [] }))
form_file-form_get_example =
    form_file-form_get boundary form (λ key. []) (bytes "_csrf") (bytes "logo") []
      boundary-IsBoundary form-IsPostable refl

reads :
    (text_value (bytes "_csrf") form ≡ bytes "t")
    × (upload (bytes "logo") form ≡ some (bytes "p", bytes "a.png"))
unfolding text_value upload bytes bytes_beq
reads = (refl, refl)
