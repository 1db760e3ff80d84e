-- ===== src/Storage/Presign.antt =====
-- `presignS3` and `presignOss` of include/helpers/Storage.h: addresses that are signed for a while.
-- OpenSSL's digests and the C library's `strftime` of the time are parameters.
pub mod Query
use cppadmin.Base.{
  ℕ, ◌+◌, Bytes, bytes, Bool, true, false, not, List, [], ◌∷◌, ◌++◌, is_empty, nat_beq,
  if◌then◌else◌,
}
use cppadmin.Services.Auth.Otp.{decimal}
use cppadmin.Storage.Encoding.{to_hex, base64, uri_encode, strip_scheme}

-- The settings of AppConfig that begin with STORAGE_.
pub record Config : Type 0 where
  pub driver : Bytes
  pub access_key_id : Bytes
  pub secret_access_key : Bytes
  pub endpoint : Bytes
  pub bucket : Bytes
  pub region : Bytes
  pub ssl : Bool

-- `date` is the format "%Y%m%d" and `stamp` "%Y%m%dT%H%M%SZ" of the time in UTC.
pub record Crypto : Type 0 where
  pub sha256 : Bytes → Bytes
  pub hmac_sha256 : Bytes → Bytes → Bytes
  pub hmac_sha1 : Bytes → Bytes → Bytes
  pub date : ℕ → Bytes
  pub stamp : ℕ → Bytes

abbrev pub number : ℕ → Bytes
number n = decimal n n

-- "a" + "/" + "b" and so on.
infixr 5 ◌/◌
abbrev ◌/◌ : Bytes → Bytes → Bytes
a / b = a ++ (b'/' ∷ b)

abbrev pub proto : Config → Bytes
proto cfg = if cfg.ssl then bytes "https" else bytes "http"

unfoldable pub region_of : Config → Bytes
region_of cfg = if is_empty cfg.region then bytes "us-east-1" else cfg.region

unfoldable pub host_of : Config → Bytes
unfolding region_of
host_of cfg =
    if not (is_empty cfg.endpoint)
    then strip_scheme cfg.endpoint
    else cfg.bucket ++ (bytes ".s3." ++ (region_of cfg ++ bytes ".amazonaws.com"))

unfoldable pub canonical_uri : Config → Bytes → Bytes
canonical_uri cfg key =
    if not (is_empty cfg.endpoint) then b'/' ∷ (cfg.bucket / key) else b'/' ∷ key

-- The loop over the parameters, which joins them by `&`.
unfoldable pub query_of : List (Bytes × Bytes) → Bytes
query_of [] = []
query_of ((k, v) ∷ []) = uri_encode true k ++ (b'=' ∷ uri_encode true v)
query_of ((k, v) ∷ q ∷ qs) =
    uri_encode true k ++ (b'=' ∷ (uri_encode true v ++ (b'&' ∷ query_of (q ∷ qs))))

module _ (cr : Crypto) (cfg : Config) where
  unfoldable pub scope_of : ℕ → Bytes
  unfolding region_of
  scope_of now = cr.date now / region_of cfg / bytes "s3" / bytes "aws4_request"

  -- `qp`: the names are in order already, and sorting pairs of different names leaves them so.
  unfoldable pub parameters : ℕ → ℕ → List (Bytes × Bytes)
  unfolding scope_of
  parameters now ttl =
      (bytes "X-Amz-Algorithm", bytes "AWS4-HMAC-SHA256")
      ∷ (bytes "X-Amz-Credential", cfg.access_key_id / scope_of now)
      ∷ (bytes "X-Amz-Date", cr.stamp now)
      ∷ (bytes "X-Amz-Expires", number ttl)
      ∷ (bytes "X-Amz-SignedHeaders", bytes "host")
      ∷ []

  abbrev newline : Bytes → Bytes → Bytes
  newline a b = a ++ (b'\n' ∷ b)

  unfoldable pub canonical_request : Bytes → Bytes → ℕ → ℕ → Bytes
  unfolding canonical_uri parameters query_of host_of
  canonical_request method key now ttl = newline method (
      newline (uri_encode false (canonical_uri cfg key)) (
        newline (query_of (parameters now ttl)) (
          newline (bytes "host:" ++ host_of cfg)
            (newline [] (newline (bytes "host") (bytes "UNSIGNED-PAYLOAD"))))))

  unfoldable pub string_to_sign : Bytes → Bytes → ℕ → ℕ → Bytes
  unfolding canonical_request scope_of
  string_to_sign method key now ttl = newline (bytes "AWS4-HMAC-SHA256") (
      newline (cr.stamp now)
        (newline (scope_of now) (to_hex (cr.sha256 (canonical_request method key now ttl)))))

  unfoldable pub signing_key : ℕ → Bytes
  unfolding region_of
  signing_key now =
      let k1 = cr.hmac_sha256 (bytes "AWS4" ++ cfg.secret_access_key) (cr.date now) in
      let k2 = cr.hmac_sha256 k1 (region_of cfg) in
      let k3 = cr.hmac_sha256 k2 (bytes "s3") in cr.hmac_sha256 k3 (bytes "aws4_request")

  unfoldable pub presign_s3 : Bytes → Bytes → ℕ → ℕ → Bytes
  unfolding string_to_sign signing_key host_of canonical_uri parameters query_of
  presign_s3 method key now ttl =
      let sig = to_hex (cr.hmac_sha256 (signing_key now) (string_to_sign method key now ttl)) in
      proto cfg
      ++ (bytes "://"
          ++ (host_of cfg
              ++ (canonical_uri cfg key
                  ++ (b'?'
                      ∷ (query_of (parameters now ttl) ++ (bytes "&X-Amz-Signature=" ++ sig))))))

  unfoldable pub presign_oss : Bytes → Bytes → ℕ → ℕ → Bytes
  presign_oss method key now ttl =
      let expires = number (now + ttl) in
      let resource = b'/' ∷ (cfg.bucket / key) in
      let sts = method ++ (b'\n' ∷ b'\n' ∷ b'\n' ∷ (newline expires resource)) in
      let sig = base64 (cr.hmac_sha1 cfg.secret_access_key sts) in
      let host = cfg.bucket ++ (b'.' ∷ strip_scheme cfg.endpoint) in
      proto cfg
      ++ (bytes "://"
          ++ (host
              ++ (b'/'
                  ∷ (uri_encode false key
                      ++ (bytes "?OSSAccessKeyId="
                          ++ (uri_encode true cfg.access_key_id
                              ++ (bytes "&Expires="
                                  ++ (expires
                                      ++ (bytes "&Signature=" ++ uri_encode true sig)))))))))
