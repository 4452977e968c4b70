-- ===== src/Context/Extract.antt =====
-- `extractListBucketContent`, `extractHeadObjectContent` and the fields of a page of
-- `extractListObjectContent` (src/Context.cpp). A value of json-c is opaque.
use qing_stor_c_sdk.Prelude.{
  ℕ, Bool, ◌||◌, List, [], ◌∷◌, length, Bytes, codes, if◌then◌else◌, Option, none, some,
}
use qing_stor_c_sdk.Prelude.Int.{ℤ, pos, eqb_ℤ, ltb_ℤ, to_int, low_bits}
use qing_stor_c_sdk.Errors.{Result, ok, throw, fault}
use qing_stor_c_sdk.Writer.Requests.{Client}

-- `json_object_get_int`, `json_object_get_int64`, and the elements of an array (none for a value
-- that is no array).
pub record JsonNumbers (Json : Type 0) : Type 0 where
  pub get_int : Json → ℤ
  pub get_int64 : Json → ℤ
  pub elements : Json → List Json

-- `BucketInfo`, `ListBucketResult`, `HeadObjectResult`: the field `etag` is never assigned.
pub record BucketInfo : Type 0 where
  pub name : Bytes
  pub location : Bytes
  pub url : Bytes
  pub created : Bytes

abbrev pub ListBucketResult : Type 0
ListBucketResult = List BucketInfo

pub record HeadObjectResult : Type 0 where
  pub content_type : Bytes
  pub content_length : ℤ
  pub last_modified : Bytes
  pub etag : Bytes

-- The members of `ObjectInfo` that a listing sets.
pub record ListedObject : Type 0 where
  pub key : Bytes
  pub size : ℤ

-- What a page adds to a `ListObjectResult`.
pub record Page : Type 0 where
  pub name : Bytes
  pub prefix : Bytes
  pub limit : ℕ
  pub objects : List ListedObject

-- `if (!…) return false;` before the rest.
infixl 5 ◌>>?◌
abbrev pub ◌>>?◌ {κ ℓ} :
    {V : Type κ} {W : Type ℓ} → Result (Option V) → (V → Result (Option W)) → Result (Option W)
fault >>? next = fault
throw e >>? next = throw e
ok none >>? next = ok none
ok (some v) >>? next = next v

-- The loop over the elements of an array: one that fails makes the whole fail.
abbrev pub each {κ ℓ} :
    {V : Type κ} {W : Type ℓ} → (V → Result (Option W)) → List V → Result (Option (List W))
each f [] = ok (some [])
each f (v ∷ vs) = f v >>? λ x. (each f vs >>? λ xs. ok (some (x ∷ xs)))

-- `std::string(json_object_get_string(value))`: a null pointer is a fault.
abbrev pub a_string : Option Bytes → Result (Option Bytes)
a_string none = fault
a_string (some t) = ok (some t)

module _ {World Json : Type 0} (client : Client World Json) (numbers : JsonNumbers Json) where
  abbrev pub field : Json → Bytes → Result (Option Json)
  field j name = ok (client.get_ex j name)

  abbrev pub text_field : Json → Bytes → Result (Option Bytes)
  text_field j name = field j name >>? λ v. a_string (client.get_string v)

  -- One round of the loop of `extractListBucketContent`.
  unfoldable pub extract_bucket : Json → Result (Option BucketInfo)
  extract_bucket element = text_field element (codes "name") >>? λ name.
      (text_field element (codes "location") >>? λ location.
      (text_field element (codes "url") >>? λ url.
      (text_field element (codes "created") >>? λ created.
      ok (some (record { name = name; location = location; url = url; created = created })))))

  -- The `int` that json_object_array_length returns.
  abbrev pub array_length : Json → ℤ
  array_length v = to_int (pos (length (numbers.elements v)))

  -- `extractListBucketContent`: the field `count` must be the length of the array.
  unfoldable pub extract_list_bucket_content : Json → Result (Option ListBucketResult)
  unfolding extract_bucket
  extract_list_bucket_content resp = field resp (codes "count") >>? λ count.
      (field resp (codes "buckets") >>? λ buckets.
      (if eqb_ℤ (array_length buckets) (numbers.get_int count)
        then each extract_bucket (numbers.elements buckets)
        else ok none))

  -- `extractHeadObjectContent`
  unfoldable pub extract_head_object_content : Json → Result (Option HeadObjectResult)
  extract_head_object_content resp = text_field resp (codes "Content-Type") >>? λ content_type.
      (field resp (codes "Content-Length") >>? λ content_length.
      (text_field resp (codes "Last-Modified") >>? λ last_modified. ok (
        some (record {
          content_type = content_type;
          content_length = numbers.get_int64 content_length;
          last_modified = last_modified;
          etag = [];
        }))))

  -- One round of the loop of `extractListObjectContent`.
  unfoldable pub extract_object : Json → Result (Option ListedObject)
  extract_object element = text_field element (codes "key") >>? λ key.
      (field element (codes "size") >>? λ size.
      ok (some (record { key = key; size = numbers.get_int64 size })))

  -- The page and whether it is the last: with no keys, or with fewer than the limit. `limit` is the
  -- `uint32_t` of an `int`, and is compared as an `int` again.
  unfoldable pub extract_page : Json → Result (Option (Page × Bool))
  unfolding extract_object
  extract_page resp = text_field resp (codes "name") >>? λ name.
      (text_field resp (codes "prefix") >>? λ prefix.
      (field resp (codes "limit") >>? λ limit_value.
      (field resp (codes "keys") >>? λ keys.
      (each extract_object (numbers.elements keys) >>? λ objects.
      let limit = low_bits (numbers.get_int limit_value) in
      let n = array_length keys in
      ok (
        some (
          record { name = name; prefix = prefix; limit = limit; objects = objects },
          (eqb_ℤ n (pos 0) || ltb_ℤ n (to_int (pos limit))),
        ))))))
