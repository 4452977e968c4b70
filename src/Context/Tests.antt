-- ===== src/Context/Tests.antt =====
-- Runs of src/Context.cpp against a small server, and the theorems at them.
use qing_stor_c_sdk.Prelude.{
  ℕ, suc, ◌≡◌, refl, ◌↔◌, ◌==◌, List, [], ◌∷◌, Bytes, codes, bytes_eq, if◌then◌else◌, Option, none,
  some, arith,
}
use qing_stor_c_sdk.Prelude.Int.{ℤ, pos}
use qing_stor_c_sdk.Errors.{Result, ok, throw, fault, qingstor}
use qing_stor_c_sdk.Common.Header.{RequestType}
use qing_stor_c_sdk.Config.{Configuration, from_values}
use qing_stor_c_sdk.Request.Outcome.{Outcome, gives_json}
use qing_stor_c_sdk.Writer.Requests.{Client}
use qing_stor_c_sdk.Context.{list_buckets, head_object_of}
use qing_stor_c_sdk.Context.Extract.{
  JsonNumbers, ListedObject, BucketInfo, Page, extract_page, extract_list_bucket_content,
  extract_head_object_content,
}
use qing_stor_c_sdk.Context.Listing.{Listing, list_objects}
use qing_stor_c_sdk.Context.Buckets.{HasBuckets, extract_list_bucket_content-HasBuckets}
use qing_stor_c_sdk.Context.Sorted.{insertion_sort}
use qing_stor_c_sdk.Context.Pages.{Breaks, list_objects-Breaks}

-- Values of json-c: the n-th answer, the keys in it, one key, and scalars.
data Value : Type 0 where
  answer keys entry : ℕ → Value
  text : Bytes → Value
  number : ℤ → Value

abbrev answer_field : ℕ → Bytes → Option Value
answer_field n name =
    if bytes_eq name (codes "limit")
    then some (number (pos 2))
    else if bytes_eq name (codes "keys")
    then some (keys n)
    else if bytes_eq name (codes "count")
    then some (number (pos 2))
    else if bytes_eq name (codes "buckets")
    then some (keys 0)
    else some (text (codes "t"))

abbrev entry_field : ℕ → Bytes → Option Value
entry_field c name =
    if bytes_eq name (codes "size") then some (number (pos c)) else some (text (c ∷ []))

abbrev get_ex : Value → Bytes → Option Value
get_ex (answer n) name = answer_field n name
get_ex (entry c) name = entry_field c name
get_ex _ name = none

abbrev get_string : Value → Option Bytes
get_string (text t) = some t
get_string _ = none

abbrev get_number : Value → ℤ
get_number (number z) = z
get_number _ = pos 0

-- Two keys on the first page, which is full, and one on the second.
abbrev elements : Value → List Value
elements (keys n) = if n == 0 then entry b'b' ∷ entry b'a' ∷ [] else entry b'c' ∷ []
elements _ = []

abbrev numbers : JsonNumbers Value
numbers = record { get_int = get_number; get_int64 = get_number; elements = elements }

abbrev reply : RequestType → ℕ → Result (Option Value)
reply kind n = ok (if gives_json kind then some (answer n) else none)

reply-Outcome : (kind : RequestType) (n : ℕ) → Outcome kind (reply kind n)
reply-Outcome kind n = ground arith

-- The world counts the requests.
abbrev serving : Client ℕ Value
serving = record {
  run = λ q md retries n. (reply q.kind n, suc n);
  run-Outcome = λ q md retries n. reply-Outcome q.kind n;
  get_ex = get_ex;
  get_string = get_string;
  parts_text = λ ns. [];
}

abbrev broken_reply : RequestType → ℕ → Result (Option Value)
broken_reply kind n = if n == 0 then reply kind n else throw qingstor

broken_reply-Outcome : (kind : RequestType) (n : ℕ) → Outcome kind (broken_reply kind n)
broken_reply-Outcome kind n = ground arith

-- The second request fails.
abbrev breaking : Client ℕ Value
breaking = record serving {
  run = λ q md retries n. (broken_reply q.kind n, suc n);
  run-Outcome = λ q md retries n. broken_reply-Outcome q.kind n;
}

abbrev config : Configuration
config = from_values (codes "pek") (codes "I") (codes "S") (pos 2)

abbrev listed : ℕ → ListedObject
listed c = record { key = c ∷ []; size = pos c }

abbrev page : List ListedObject → Page
page objects = record { name = codes "t"; prefix = codes "t"; limit = 2; objects = objects }

abbrev pages : List Page
pages = page (listed b'b' ∷ listed b'a' ∷ []) ∷ page (listed b'c' ∷ []) ∷ []

breaking-Breaks :
    Breaks breaking numbers insertion_sort config
      (codes "b")
      []
      []
      0
      (page (listed b'b' ∷ listed b'a' ∷ []) ∷ [])
unfolding extract_page
breaking-Breaks = (record { answer = answer 0; granted = refl; readable = refl }, (qingstor, refl))

list_objects-Breaks_example :
    (w' : ℕ) × (list_objects breaking numbers insertion_sort 3 config (codes "b") [] 0
      ≡ some (fault, w'))
list_objects-Breaks_example =
    list_objects-Breaks breaking numbers insertion_sort config (codes "b") [] 3 0
      (page (listed b'b' ∷ listed b'a' ∷ [])) [] breaking-Breaks (omega arith)

abbrev bucket : ℕ → BucketInfo
bucket c = record { name = c ∷ []; location = c ∷ []; url = c ∷ []; created = c ∷ [] }

list_buckets_run :
    (list_buckets serving numbers config [] 0).0 ≡ ok (bucket b'b' ∷ bucket b'a' ∷ [])
unfolding list_buckets extract_list_bucket_content
list_buckets_run = refl

extract_list_bucket_content-HasBuckets_example :
    (extract_list_bucket_content serving numbers (answer 0)
      ≡ ok (some (bucket b'b' ∷ bucket b'a' ∷ [])))
    ↔ HasBuckets serving numbers (answer 0) (bucket b'b' ∷ bucket b'a' ∷ [])
extract_list_bucket_content-HasBuckets_example =
    extract_list_bucket_content-HasBuckets serving numbers (answer 0)
      (bucket b'b' ∷ bucket b'a' ∷ [])

-- The entity tag of a result is empty, whatever the answer.
head_run :
    (head_object_of serving numbers config (codes "b") (codes "k") 0).0
    ≡ ok (record {
      content_type = codes "t";
      content_length = pos 0;
      last_modified = codes "t";
      etag = [];
    })
unfolding head_object_of extract_head_object_content
head_run = refl
