-- ===== src/Storage/Upload/Laws.antt =====
-- What an upload of a picture stores, and what it refuses.
use cppadmin.Base.{
  Bytes, false, ◌<◌, ◌⊎◌, List, [], ◌++◌, Option, none, some, NoByte, length, ◌==◌, bytes_eq,
  if◌then◌else◌, ◌≡◌,
}
use cppadmin.Error.{Error}
use cppadmin.Error.Effect.{Result, ok, err}
use cppadmin.Storage.Presign.{Config, Crypto}
use cppadmin.Storage.Objects.{CurlResult, Disk}
use cppadmin.Storage.Upload.{max_image_bytes, image_mime, mime_in, extension}

module _ (cr : Crypto) (cfg : Config) (send : Bytes → Bytes → Bytes → List Bytes → CurlResult) where
  -- A picture is kept under a key of the folder, and no other file has changed.
  abbrev pub IsKept : Bytes → Bytes → Disk → Result Bytes × Disk → Bytes → Type 0
  IsKept key_prefix content disk (result, later) k =
      (tail : Bytes) × (result ≡ ok (key_prefix ++ tail))
      × NoByte b'/' tail
      × (later.file k
          ≡ (if k == key_prefix ++ tail then some (disk.written content) else disk.file k))

  -- A picture is too large, has no extension of the table, or cannot be written.
  abbrev pub IsRefused : Bytes → Bytes → Disk → Type 0
  IsRefused content file_name disk =
      (max_image_bytes < length content)
      ⊎ ((mime_in image_mime (extension file_name) ≡ none) ⊎ (disk.is_writable ≡ false))

  -- What an upload of a picture comes to: no picture, one that is kept, or one that is refused.
  abbrev pub Outcome : Bytes → Option (Bytes × Bytes) → Disk → Result Bytes × Disk → Bytes → Type 0
  Outcome key_prefix o disk r k =
      ((o ≡ none) × (r ≡ (ok [], disk)))
      ⊎ ((content : Bytes) × (file_name : Bytes) × (o ≡ some (content, file_name))
          × ((IsKept key_prefix content disk r k × (¬ IsRefused content file_name disk))
              ⊎ (IsRefused content file_name disk × ((e : Error) × (r ≡ (err e, disk))))))
