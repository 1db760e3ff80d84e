-- ===== src/Storage/Objects.antt =====
-- `url`, `save` and `remove` of include/helpers/Storage.h. The files under `baseDir` are a map from
-- keys to contents, `is_writable` tells whether a file can be opened for writing, and `written` how
-- much of a content reaches it, as the source does not check the write. `send` stands
-- for libcurl: from method, address, content and headers to the status and the transport error.
pub mod Laws
use cppadmin.Base.{
  ℕ, Bytes, bytes, Bool, true, false, not, ◌&&◌, ◌||◌, List, [], ◌∷◌, ◌++◌, Option, none, some,
  is_empty, nat_beq, starts_with, ltb, leb, ◌==◌, bytes_eq, bytes_beq, if◌then◌else◌,
}
use cppadmin.Error.{Error, other}
use cppadmin.Error.Effect.{Result, ok, err, Effect}
use cppadmin.Storage.Presign.{Config, Crypto, presign_s3, presign_oss}

-- The loop that leaves a slash out behind a slash; the flag is `out.back() == '/'`.
unfoldable pub squeezed : Bool → Bytes → Bytes
squeezed after_slash [] = []
squeezed after_slash (c ∷ s) =
    let skip = squeezed true s in
    let rest = squeezed (nat_beq c b'/') s in
    if nat_beq c b'/' && after_slash then skip else c ∷ rest

-- kLocalUrlPrefix
abbrev pub local_url_prefix : Bytes
local_url_prefix = bytes "/storage"

abbrev pub is_local : Config → Bool
is_local cfg = cfg.driver == bytes "local"

abbrev pub is_s3 : Config → Bool
is_s3 cfg = cfg.driver == bytes "s3"

module _ (cr : Crypto) (cfg : Config) where
  unfoldable pub url : Bytes → ℕ → ℕ → Bytes
  unfolding squeezed
  url key ttl now =
      if is_empty key
      then []
      else if is_local cfg
      then squeezed false (local_url_prefix ++ (b'/' ∷ key))
      else if is_empty cfg.access_key_id || is_empty cfg.secret_access_key
      then (if starts_with key (b'/' ∷ []) then key else b'/' ∷ key)
      else if is_s3 cfg
      then presign_s3 cr cfg (bytes "GET") key now ttl
      else presign_oss cr cfg (bytes "GET") key now ttl

  abbrev pub signed_url : Bytes → Bytes → ℕ → Bytes
  signed_url method key now =
      if is_s3 cfg
      then presign_s3 cr cfg method key now 900
      else presign_oss cr cfg method key now 900

-- CurlResult
pub record CurlResult : Type 0 where
  pub status : ℕ
  pub error : Bytes

pub record Disk : Type 0 where
  pub file : Bytes → Option Bytes
  pub is_writable : Bool
  pub written : Bytes → Bytes

unfoldable pub save_local : Bytes → Bytes → Effect Disk (Unit {0})
save_local key content disk =
    if disk.is_writable
    then (
      ok tt,
      record disk { file = λ k. if k == key then some (disk.written content) else disk.file k },
    )
    else (err other, disk)

unfoldable pub remove_local : Bytes → Disk → Disk
remove_local key disk = record disk { file = λ k. if k == key then none else disk.file k }

module _ (cr : Crypto) (cfg : Config) (send : Bytes → Bytes → Bytes → List Bytes → CurlResult) where
  unfoldable pub content_headers : Bytes → List Bytes
  content_headers content_type =
      if is_s3 cfg && not (is_empty content_type)
      then (bytes "Content-Type: " ++ content_type) ∷ []
      else bytes "Content-Type:" ∷ []

  abbrev pub has_failed : CurlResult → Bool
  has_failed r = not (is_empty r.error) || (ltb r.status 200 || leb 300 r.status)

  unfoldable pub save : Bytes → Bytes → Bytes → ℕ → Effect Disk (Unit {0})
  unfolding save_local content_headers
  save key content content_type now disk =
      let r =
        send (bytes "PUT") (signed_url cr cfg (bytes "PUT") key now) content
          (content_headers content_type) in
      if is_local cfg
      then save_local key content disk
      else if has_failed r
      then (err other, disk)
      else (ok tt, disk)

  -- A failure of the remote request is ignored, so that the request leaves no trace here.
  unfoldable pub remove : Bytes → Disk → Disk
  unfolding remove_local
  remove key disk = if is_local cfg then remove_local key disk else disk
