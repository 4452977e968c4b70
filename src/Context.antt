-- ===== src/Context.antt =====
-- `Context` (src/Context.cpp and .h): the requests on buckets and objects, and what is read from
-- their JSON answers. The requests go through a `Client`, which `DoGetJSON` implements.
pub mod Extract
pub mod Listing
pub mod Throws
pub mod Buckets
pub mod Sorted
pub mod Pages
mod Tests
use qing_stor_c_sdk.Prelude.{Bytes, codes, is_empty, ◌++◌, if◌then◌else◌, Option, none, some}
use qing_stor_c_sdk.Prelude.Int.{pos_part}
use qing_stor_c_sdk.Errors.{Result, ok, throw, fault, rethrowing, network}
use qing_stor_c_sdk.Common.Header.{
  RequestType, list_bucket, create_bucket, delete_bucket, head_object, delete_object,
}
use qing_stor_c_sdk.Config.{Configuration}
use qing_stor_c_sdk.Reader.{bucket_host, object_url}
use qing_stor_c_sdk.Request.{Request}
use qing_stor_c_sdk.Writer.Requests.{Client}
use qing_stor_c_sdk.Context.Extract.{
  JsonNumbers, ListBucketResult, HeadObjectResult, extract_list_bucket_content,
  extract_head_object_content,
}

-- The arguments of `DoGetJSON`, with the credential of the configuration.
abbrev pub context_request :
    Configuration → Bytes → Bytes → Option Bytes → Option Bytes → RequestType → Request
context_request config host url bucket location kind = record {
  host_name = host;
  url_text = url;
  bucket = bucket;
  place = location;
  cred = record { keyid = config.access_key_id; secret = config.secret_access_key };
  kind = kind;
}

-- `bucket.location.host`, with the configured location for an empty one.
abbrev pub located_host : Configuration → Bytes → Bytes → Bytes
located_host config location bucket =
    if is_empty location
    then bucket_host config bucket
    else bucket ++ (codes "." ++ (location ++ (codes "." ++ config.host)))

-- `protocol://host/`
abbrev pub root_url : Configuration → Bytes → Bytes
root_url config host = config.protocol ++ (codes "://" ++ (host ++ codes "/"))

abbrev pub if_given : Bytes → Option Bytes
if_given text = if is_empty text then none else some text

-- A result that could not be extracted is an error.
abbrev pub extracted {ℓ} : {V : Type ℓ} → Result (Option V) → Result V
extracted fault = fault
extracted (throw e) = throw e
extracted (ok none) = throw network
extracted (ok (some v)) = ok v

-- An answer with no JSON value is an error too.
abbrev pub answer_with {ℓ} :
    {Json : Type 0} {V : Type ℓ} → (Json → Result (Option V)) → Result (Option Json) → Result V
answer_with extract fault = fault
answer_with extract (throw e) = throw e
answer_with extract (ok none) = throw network
answer_with extract (ok (some resp)) = extracted (extract resp)

abbrev pub ignored : {Json : Type 0} → Result (Option Json) → Result (Unit {0})
ignored fault = fault
ignored (throw e) = throw e
ignored (ok v) = ok tt

module _ {World Json : Type 0} (client : Client World Json) (numbers : JsonNumbers Json) where
  -- `DoGetJSON`, with the retries of the configuration.
  abbrev pub ask : Configuration → Request → World → Result (Option Json) × World
  ask config q w = client.run q none (pos_part config.connection_retries) w

  -- `listBuckets`
  unfoldable pub list_buckets : Configuration → Bytes → World → Result ListBucketResult × World
  list_buckets config location w =
      let url = root_url config config.host in
      let q = context_request config config.host url none (if_given location) list_bucket in
      let (r, w') = ask config q w in
      (rethrowing (answer_with (extract_list_bucket_content client numbers) r), w')

  -- `headObject`
  unfoldable pub head_object_of :
      Configuration → Bytes → Bytes → World → Result HeadObjectResult × World
  head_object_of config bucket key w =
      let url = object_url config bucket key in
      let q =
        context_request config (bucket_host config bucket) url (some bucket) none head_object in
      let (r, w') = ask config q w in
      (rethrowing (answer_with (extract_head_object_content client numbers) r), w')

  -- `createBucket` and `deleteBucket`
  abbrev pub bucket_request : RequestType → Configuration → Bytes → Bytes → Request
  bucket_request kind config location bucket =
      let host = located_host config location bucket in
      context_request config host (root_url config host) (some bucket) none kind

  unfoldable pub create_bucket_in :
      Configuration → Bytes → Bytes → World → Result (Unit {0}) × World
  create_bucket_in config location bucket w =
      let (r, w') = ask config (bucket_request create_bucket config location bucket) w in
      (rethrowing (ignored r), w')

  unfoldable pub delete_bucket_in :
      Configuration → Bytes → Bytes → World → Result (Unit {0}) × World
  delete_bucket_in config location bucket w =
      let (r, w') = ask config (bucket_request delete_bucket config location bucket) w in
      (rethrowing (ignored r), w')

  -- `deleteObject`
  unfoldable pub delete_object_of :
      Configuration → Bytes → Bytes → World → Result (Unit {0}) × World
  delete_object_of config bucket key w =
      let url = object_url config bucket key in
      let q =
        context_request config (bucket_host config bucket) url (some bucket) none delete_object in
      let (r, w') = ask config q w in (rethrowing (ignored r), w')
