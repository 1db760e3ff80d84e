-- ===== src/Storage/Upload/Tests.antt =====
-- The upload of a small picture.
use cppadmin.Base.{◌≡◌, refl, Bytes, bytes, bytes_beq, List, [], ◌∷◌, none, some, true}
use cppadmin.Web.Form.Encoding.{Field, file_input}
use cppadmin.Storage.Presign.{Config, Crypto}
use cppadmin.Storage.Objects.{CurlResult, Disk}
use cppadmin.Storage.Upload.{image_mime, mime_in, after_dot, extension}

abbrev crypto : Crypto
crypto = record {
  sha256 = λ s. s;
  hmac_sha256 = λ k d. k;
  hmac_sha1 = λ k d. k;
  date = λ now. [];
  stamp = λ now. [];
}

abbrev config : Config
config = record {
  driver = bytes "local";
  access_key_id = [];
  secret_access_key = [];
  endpoint = [];
  bucket = [];
  region = [];
  ssl = true;
}

abbrev silent : Bytes → Bytes → Bytes → List Bytes → CurlResult
silent method address content headers = record { status = 500; error = [] }

abbrev disk : Disk
disk = record { file = λ k. none; is_writable = true; written = λ s. s }

abbrev boundary : Bytes
boundary = bytes "Y"

abbrev form : List Field
form = file_input (bytes "logo") (bytes "b.PNG") (bytes "image/png") (bytes "pq") ∷ []

-- The extension counts in any case.
known : mime_in image_mime (extension (bytes "b.PNG")) ≡ some (bytes "image/png")
unfolding mime_in extension after_dot bytes bytes_beq
known = refl
