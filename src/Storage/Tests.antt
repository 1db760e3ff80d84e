-- ===== src/Storage/Tests.antt =====
-- Addresses, files and requests for files at concrete values.
use cppadmin.Base.{
  ℕ, ◌≡◌, ◌≢◌, ◌⊎◌, refl, arith, Bytes, bytes, bytes_beq, Bool, true, false, List, [], ◌∷◌, ◌++◌,
  All, none, bytes_eq,
}
use cppadmin.Storage.Presign.{Config, Crypto, query_of}
use cppadmin.Storage.Presign.Query.{AreBytes, read_query, read_query-query_of}
use cppadmin.Storage.Objects.{is_local, CurlResult, Disk}
use cppadmin.Storage.Serving.{serve, file_response, status_only, IsJoined, serve_sound}

abbrev crypto : Crypto
crypto = record {
  sha256 = λ s. s;
  hmac_sha256 = λ k d. k ++ d;
  hmac_sha1 = λ k d. k ++ d;
  date = λ now. [];
  stamp = λ now. [];
}

abbrev config : Config
config = record {
  driver = bytes "local";
  access_key_id = [];
  secret_access_key = [];
  endpoint = [];
  bucket = [];
  region = [];
  ssl = true;
}

local : is_local config ≡ true
unfolding bytes bytes_beq
local = refl

parameter_AreBytes : All AreBytes ((b'a' ∷ [], b'&' ∷ b'=' ∷ []) ∷ (b'b' ∷ [], []) ∷ [])
parameter_AreBytes =
    (((omega arith, tt), (omega arith, (omega arith, tt))), (((omega arith, tt), tt), tt))

read_query_example :
    read_query (query_of ((b'a' ∷ [], b'&' ∷ b'=' ∷ []) ∷ (b'b' ∷ [], []) ∷ []))
    ≡ (b'a' ∷ [], b'&' ∷ b'=' ∷ []) ∷ (b'b' ∷ [], []) ∷ []
read_query_example =
    read_query-query_of (b'a' ∷ [], b'&' ∷ b'=' ∷ []) ((b'b' ∷ [], []) ∷ []) parameter_AreBytes

abbrev key : Bytes
key = 1 ∷ []

abbrev refusing : Bytes → Bytes → Bytes → List Bytes → CurlResult
refusing method address content headers = record { status = 500; error = [] }

abbrev disk : Disk
disk = record { file = λ k. none; is_writable = true; written = λ s. s }

abbrev canonical : Bytes → Bytes
canonical s = s

abbrev there : Bytes → Bool
there s = true

abbrev nowhere : Bytes → Bool
nowhere s = false

serve_example :
    ((path : Bytes)
      → serve canonical there nowhere true (bytes "/up") (bytes "a.png") ≡ file_response path
      → ((true ≡ true) × (bytes "a.png" ≢ []))
        × (((s : Bytes) → bytes "a.png" ≢ b'/' ∷ s)
            × ((u v : Bytes) → bytes "a.png" ≢ u ++ (b'.' ∷ b'.' ∷ v)))
        × (((whole : Bytes) × IsJoined (canonical (bytes "/up")) (bytes "a.png") whole
              × (path ≡ canonical whole))
            × ((tail : Bytes) × IsJoined (canonical (bytes "/up")) tail path))
        × ((there path ≡ true) × (nowhere path ≡ false)))
    × ((code : ℕ)
        → serve canonical there nowhere true (bytes "/up") (bytes "a.png") ≡ status_only code
        → (code ≡ 400) ⊎ ((code ≡ 403) ⊎ (code ≡ 404)))
serve_example = serve_sound canonical there nowhere true (bytes "/up") (bytes "a.png")
