-- ===== src/Interface/Contexts.antt =====
-- The functions on contexts, buckets and listings (src/QingStor.cpp). A context is the configuration
-- that it holds; a null pointer is `none`.
use qing_stor_c_sdk.Prelude.{ℕ, Bool, ◌&&◌, List, [], ◌∷◌, Bytes, if◌then◌else◌, Option, none, some}
use qing_stor_c_sdk.Prelude.Int.{ℤ, pos, negsuc}
use qing_stor_c_sdk.Errors.{Result, ok, throw, fault, out_of_memory}
use qing_stor_c_sdk.Config.{Configuration, from_values, Token, from_file}
use qing_stor_c_sdk.Writer.Requests.{Client}
use qing_stor_c_sdk.Context.{
  list_buckets, head_object_of, create_bucket_in, delete_bucket_in, delete_object_of,
}
use qing_stor_c_sdk.Context.Extract.{JsonNumbers, BucketInfo, HeadObjectResult}
use qing_stor_c_sdk.Context.Listing.{Sort, Listing, list_objects}
use qing_stor_c_sdk.Interface.{Api, Texts, given, refused, on_exception, guarded, checked}

abbrev pub or_empty : Option Bytes → Bytes
or_empty none = []
or_empty (some t) = t

abbrev pub success : Unit {0} → ℤ
success u = pos 0

abbrev pub failure : ℤ
failure = negsuc 0

-- `std::string(location)` of a null pointer is a fault.
abbrev pub new_context : Option Bytes → Bytes → Bytes → ℤ → Result Configuration
new_context none access_key_id secret_access_key chunk_size = fault
new_context (some location) access_key_id secret_access_key chunk_size =
    ok (from_values location access_key_id secret_access_key chunk_size)

-- `delete context` in the `catch` clauses, of a pointer that no line has set.
abbrev pub deleting_context : Result Configuration → Result Configuration
deleting_context fault = fault
deleting_context (throw e) = fault
deleting_context (ok c) = ok c

-- `qingstorGetLastError`
abbrev pub get_last_error : {World : Type 0} → Api World → Bytes
get_last_error a = a.message

-- What `qingstorDestroyContext` frees, in order.
pub data Freed : Type 0 where
  context wrapper : Freed

abbrev pub destroy_context : Option Configuration → List Freed
destroy_context none = []
destroy_context (some c) = context ∷ wrapper ∷ []

module _ {World : Type 0} (texts : Texts) where
  -- `qingstorInitContext`
  unfoldable pub init_context :
      Option Bytes
      → Option Bytes
      → Option Bytes
      → ℤ
      → Api World
      → Result (Option Configuration) × Api World
  init_context location access_key_id secret_access_key chunk_size =
      checked texts (given access_key_id && given secret_access_key) none λ a.
        guarded texts none some
          (deleting_context
            (new_context location (or_empty access_key_id) (or_empty secret_access_key) chunk_size))
          a

  -- `qingstorInitContextFromFile`: whether the parser could be set up, and the tokens of the file,
  -- if it could be opened.
  unfoldable pub init_context_from_file :
      Option Bytes
      → Bool
      → Option (List Token)
      → Api World
      → Result (Option Configuration) × Api World
  init_context_from_file config_file parser_ok tokens =
      checked texts (given config_file) none
        λ a. guarded texts none some (deleting_context (from_file parser_ok tokens)) a

module _ {World Json : Type 0} (texts : Texts) (client : Client World Json)
    (numbers : JsonNumbers Json) where
  -- A call of the context, with the surroundings that it leaves.
  abbrev pub context_call {κ ℓ} :
      {V : Type κ} {R : Type ℓ} → R → (V → R) → Result V × World → Api World → Result R × Api World
  context_call failing returned (r, w) a = guarded texts failing returned r (record a { world = w })

  -- The result of `malloc` is written to unseen.
  abbrev pub filled_array : Bool → Result (List BucketInfo) → Result (List BucketInfo)
  filled_array allocated fault = fault
  filled_array allocated (throw e) = throw e
  filled_array allocated (ok []) = ok []
  filled_array allocated (ok (b ∷ l)) = if allocated then ok (b ∷ l) else fault

  -- `qingstorListBuckets`: the array and `*count`, which a null `count` cannot receive.
  unfoldable pub list_buckets_call :
      Bool
      → Option Configuration
      → Option Bytes
      → Bool
      → Api World
      → Result (List BucketInfo) × Api World
  list_buckets_call allocated none location has_count a = (ok [], refused texts a)
  list_buckets_call allocated (some c) location has_count a =
      checked texts has_count []
        (λ a'.
          let (r, w) = list_buckets client numbers c (or_empty location) a'.world in
          context_call [] (λ l. l) (filled_array allocated r, w) a')
        a

  -- `qingstorCreateBucket`, `qingstorDeleteBucket`, `qingstorDeleteObject`
  unfoldable pub create_bucket_call :
      Option Configuration → Option Bytes → Option Bytes → Api World → Result ℤ × Api World
  create_bucket_call none location bucket a = (ok failure, refused texts a)
  create_bucket_call (some c) location bucket a =
      checked texts (given bucket) failure
        (λ a'.
          context_call failure success
            (create_bucket_in client numbers c (or_empty location) (or_empty bucket) a'.world) a')
        a

  unfoldable pub delete_bucket_call :
      Option Configuration → Option Bytes → Option Bytes → Api World → Result ℤ × Api World
  delete_bucket_call none location bucket a = (ok failure, refused texts a)
  delete_bucket_call (some c) location bucket a =
      checked texts (given bucket) failure
        (λ a'.
          context_call failure success
            (delete_bucket_in client numbers c (or_empty location) (or_empty bucket) a'.world) a')
        a

  unfoldable pub delete_object_call :
      Option Configuration → Option Bytes → Option Bytes → Api World → Result ℤ × Api World
  delete_object_call none bucket key a = (ok failure, refused texts a)
  delete_object_call (some c) bucket key a =
      checked texts (given bucket && given key) failure
        (λ a'.
          context_call failure success
            (delete_object_of client numbers c (or_empty bucket) (or_empty key) a'.world) a')
        a

  -- `qingstorHeadObject`: the result of `malloc` is written to unseen.
  abbrev pub filled_head : Bool → Result HeadObjectResult → Result HeadObjectResult
  filled_head allocated fault = fault
  filled_head allocated (throw e) = throw e
  filled_head allocated (ok h) = if allocated then ok h else fault

  unfoldable pub head_object_call :
      Bool
      → Option Configuration
      → Option Bytes
      → Option Bytes
      → Api World
      → Result (Option HeadObjectResult) × Api World
  head_object_call allocated none bucket key a = (ok none, refused texts a)
  head_object_call allocated (some c) bucket key a =
      checked texts (given bucket && given key) none
        (λ a'.
          let (r, w) = head_object_of client numbers c (or_empty bucket) (or_empty key) a'.world in
          context_call none some (filled_head allocated r, w) a')
        a

  -- What `qingstorListObjects` returns: the listing, without its objects if their `malloc` failed.
  pub data ListCall : Type 0 where
    no_listing : ListCall
    full_listing : Listing → ListCall
    without_objects : Listing → ListCall

  -- The two calls of `malloc`. Behind the first the pointer is returned also after a `throw`.
  abbrev pub copied : Bool → Bool → Result Listing → Api World → Result ListCall × Api World
  copied first second fault a = (fault, a)
  copied first second (throw e) a = (ok no_listing, on_exception texts e a)
  copied first second (ok l) a =
      if first
      then if second
        then (ok (full_listing l), a)
        else (ok (without_objects l), on_exception texts out_of_memory a)
      else (ok no_listing, on_exception texts out_of_memory a)

  abbrev pub copied_pages :
      Bool
      → Bool
      → Option (Result Listing × World)
      → Api World
      → Option (Result ListCall × Api World)
  copied_pages first second none a = none
  copied_pages first second (some (r, w)) a = some (copied first second r (record a { world = w }))

  -- `qingstorListObjects`, over at most `fuel` pages.
  unfoldable pub list_objects_call :
      Sort
      → Bool
      → Bool
      → ℕ
      → Option Configuration
      → Option Bytes
      → Option Bytes
      → Api World
      → Option (Result ListCall × Api World)
  list_objects_call qsort first second fuel none bucket path a =
      some (ok no_listing, refused texts a)
  list_objects_call qsort first second fuel (some c) bucket path a =
      let pages =
        list_objects client numbers qsort fuel c (or_empty bucket) (or_empty path) a.world in
      if given bucket
      then copied_pages first second pages a
      else some (ok no_listing, refused texts a)
