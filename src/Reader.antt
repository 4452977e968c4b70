-- ===== src/Reader.antt =====
-- `QingStorReader` (src/QingStorReader.cpp, src/QingStorRWBase.cpp): the byte range of an object,
-- divided into chunks, each of which gets a fetcher.
pub mod Plan
pub mod Truncation
mod Tests
use qing_stor_c_sdk.Prelude.{
  ℕ, zero, suc, ◌*◌, Bool, true, false, ◌||◌, not, List, [], ◌∷◌, ◌++◌, map, Bytes, codes,
  if◌then◌else◌, Option, none, some,
}
use qing_stor_c_sdk.Prelude.Int.{ℤ, pos, negsuc, ◌+ℤ◌, ◌-ℤ◌, ltb_ℤ, eqb_ℤ, to_int}
use qing_stor_c_sdk.Common.Header.{Credential}
use qing_stor_c_sdk.Config.{Configuration}
use qing_stor_c_sdk.Fetcher.{Fetcher, new_fetcher}

-- `RangeInfo` and `ObjectInfo` (src/Context.h)
pub record RangeInfo : Type 0 where
  pub start : ℤ
  pub end : ℤ

pub record ObjectInfo : Type 0 where
  pub key : Bytes
  pub size : ℤ
  pub range : RangeInfo

abbrev pub buff_limit : ℤ
buff_limit = pos (128 * 1024 * 1024)

-- `chunkSize` and `buffSize`. With one connection there are no chunks: both are -1.
unfoldable pub chunk_sizes : Configuration → ℤ × ℤ
chunk_sizes c =
    if ltb_ℤ (pos 1) c.num_connections
    then (c.chunk_size, if ltb_ℤ buff_limit c.chunk_size then buff_limit else to_int c.chunk_size)
    else (negsuc 0, negsuc 0)

-- `len` of the chunk at `offset`.
unfoldable pub chunk_len : ℤ → ℤ → ℤ → ℤ
chunk_len chunk offset end =
    if eqb_ℤ chunk (negsuc 0) || ltb_ℤ end (offset +ℤ chunk) then end -ℤ offset +ℤ pos 1 else chunk

abbrev pub cons? {ℓ} : {A : Type ℓ} → A → Option (List A) → Option (List A)
cons? x none = none
cons? x (some xs) = some (x ∷ xs)

-- `do { … } while (offset <= object->range.end)` with fuel: the offset and length of each chunk.
unfoldable pub chunks : ℕ → ℤ → ℤ → ℤ → Option (List (ℤ × ℤ))
unfolding chunk_len
chunks zero chunk offset end = none
chunks (suc fuel) chunk offset end =
    let len = chunk_len chunk offset end in
    let rest = chunks fuel chunk (offset +ℤ len) end in
    if ltb_ℤ end (offset +ℤ len) then some ((offset, len) ∷ []) else cons? (offset, len) rest

-- `bucket.location.host`
abbrev pub bucket_host : Configuration → Bytes → Bytes
bucket_host c bucket = bucket ++ (codes "." ++ (c.location ++ (codes "." ++ c.host)))

-- `protocol://host/key`
abbrev pub object_url : Configuration → Bytes → Bytes → Bytes
object_url c bucket key =
    c.protocol ++ (codes "://" ++ (bucket_host c bucket ++ (codes "/" ++ key)))

-- The fetcher of a chunk. The constructor of `HTTPFetcher` takes the length as an `int`.
unfoldable pub chunk_fetcher : Configuration → Bytes → ObjectInfo → ℤ × ℤ → Fetcher
chunk_fetcher c bucket object (offset, len) =
    new_fetcher (object_url c bucket object.key) (bucket_host c bucket) bucket
      (record { keyid = c.access_key_id; secret = c.secret_access_key }) (chunk_sizes c).1 offset
      (to_int len)

-- `setupPipeline` for the one object of a reader: the fetchers, in the order in which they are
-- added. The fuel bounds the number of chunks.
unfoldable pub setup_pipeline : ℕ → Configuration → Bytes → ObjectInfo → Option (List Fetcher)
unfolding chunks chunk_sizes chunk_fetcher
setup_pipeline fuel c bucket object =
    elim (chunks fuel (chunk_sizes c).0 object.range.start object.range.end) [
      | none ↦ none
      | some l ↦ some (map (chunk_fetcher c bucket object) l)
    ]
