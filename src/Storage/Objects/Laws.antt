-- ===== src/Storage/Objects/Laws.antt =====
-- The addresses of local files, and what saving and removing do to the files.
use cppadmin.Base.{
  ℕ, Bytes, bytes, Bool, true, false, ◌&&◌, ◌||◌, List, [], ◌∷◌, ◌++◌, none, some, is_empty,
  is_empty_lem, nat_beq, ◌≡◌, ◌≢◌, refl, arith, Bool-cases, inl, inr, ◌==◌, bytes_eq, if◌then◌else◌,
}
use cppadmin.Error.Effect.{ok}
use cppadmin.Storage.Presign.{Config, Crypto}
use cppadmin.Storage.Objects.{
  squeezed, local_url_prefix, is_local, url, CurlResult, Disk, save_local, save, remove,
  remove_local, has_failed, signed_url, content_headers,
}

-- No slash follows a slash; the flag says that one stands before the text.
unfoldable pub has_double_slash : Bool → Bytes → Bool
has_double_slash after_slash [] = false
has_double_slash after_slash (c ∷ s) =
    let rest = has_double_slash (nat_beq c b'/') s in (nat_beq c b'/' && after_slash) || rest

squeezed-single : (b : Bool) (s : Bytes) → has_double_slash b (squeezed b s) ≡ false
unfolding squeezed has_double_slash
squeezed-single b [] = refl
squeezed-single b (c ∷ s) = elim (Bool-cases (nat_beq c b'/')) [
  | inl slash ↦ ground (arith, squeezed-single true s)
  | inr other ↦ ground (arith, squeezed-single false s)
]

squeezed-kept : (b : Bool) (s : Bytes) → has_double_slash b s ≡ false → squeezed b s ≡ s
unfolding squeezed has_double_slash
squeezed-kept b [] p = refl
squeezed-kept b (c ∷ s) p = elim (Bool-cases (nat_beq c b'/')) [
  | inl slash ↦ ground (arith, squeezed-kept true s)
  | inr other ↦ ground (arith, squeezed-kept false s)
]

prefix-single :
    (key : Bytes)
    → has_double_slash true key ≡ false
    → has_double_slash false (local_url_prefix ++ (b'/' ∷ key)) ≡ false
unfolding has_double_slash bytes
prefix-single key p = p

module _ (cr : Crypto) (cfg : Config) where
  -- With the local driver the address of a key has no double slash, and the address of a key
  -- without a slash at its start or a double slash in it is "/storage/" and the key, so that the
  -- route of the handler gets the stored key back. The empty key has no address.
  pub url_local :
      (key : Bytes) (ttl now : ℕ)
      → is_local cfg ≡ true
      → (has_double_slash false (url cr cfg key ttl now) ≡ false)
        × ((has_double_slash true key ≡ false
              → key ≢ []
              → url cr cfg key ttl now ≡ local_url_prefix ++ (b'/' ∷ key))
            × (url cr cfg [] ttl now ≡ []))
  unfolding url
  url_local key ttl now local = (
    elim (Bool-cases (is_empty key)) [
      | inl none_given ↦ rw none_given (unfold has_double_slash in refl)
      | inr given ↦ rw (given, local) (squeezed-single false (local_url_prefix ++ (b'/' ∷ key)))
    ],
    (
      λ single some_byte.
          rw (is_empty_lem key some_byte, local)
            (squeezed-kept false (local_url_prefix ++ (b'/' ∷ key)) (prefix-single key single)),
      refl,
    ),
  )

test_twice :
    {A : Type 0} (b : Bool) (x y z : A)
    → (if b then x else if b then y else z) ≡ (if b then x else z)
test_twice true x y z = refl
test_twice false x y z = refl

-- The request to the storage server that `save` makes.
module _ (cr : Crypto) (cfg : Config) (send : Bytes → Bytes → Bytes → List Bytes → CurlResult) where
  -- With the local driver, and a folder that can be written, a saved file is there with what
  -- was written of its content and no other file has changed; removing it takes it away, and again no other file. A save that
  -- throws has changed no file, whatever the driver.
  pub save_sound :
      (key content content_type : Bytes) (now : ℕ) (disk : Disk) (k : Bytes)
      → (is_local cfg ≡ true
          → disk.is_writable ≡ true
          → ((save cr cfg send key content content_type now disk).0 ≡ ok tt)
            × (((save cr cfg send key content content_type now disk).1.file k
                  ≡ (if k == key then some (disk.written content) else disk.file k))
                × ((remove cr cfg send key
                        (save cr cfg send key content content_type now disk).1).file
                      k
                    ≡ (if k == key then none else disk.file k))))
        × ((save cr cfg send key content content_type now disk).0 ≢ ok tt
            → (save cr cfg send key content content_type now disk).1 ≡ disk)
  unfolding save remove save_local remove_local
  save_sound key content content_type now disk k =
      let response =
        send (bytes "PUT") (signed_url cr cfg (bytes "PUT") key now) content
          (content_headers cr cfg send content_type) in
      (
        λ local can.
            rw (local, can)
              (
                refl,
                (refl, test_twice (k == key) none (some (disk.written content)) (disk.file k)),
              ),
        λ h. elim (Bool-cases (is_local cfg)) [
          | inl local ↦ elim (Bool-cases disk.is_writable) [
            | inl can ↦ absurd (h (rw (local, can) refl))
            | inr cannot ↦ rw (local, cannot) refl
          ]
          | inr away ↦ elim (Bool-cases (has_failed cr cfg send response)) [
            | inl failed ↦ rw (away, failed) refl
            | inr sent ↦ absurd (h (rw (away, sent) refl))
          ]
        ],
      )
