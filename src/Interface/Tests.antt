-- ===== src/Interface/Tests.antt =====
-- Runs of src/QingStor.cpp against a small server, and the theorems at them.
use qing_stor_c_sdk.Prelude.{
  ℕ, suc, ◌+◌, ◌≡◌, refl, true, List, [], ◌∷◌, Bytes, codes, bytes_eq, if◌then◌else◌, map, Option,
  none, some, arith,
}
use qing_stor_c_sdk.Prelude.Int.{ℤ, pos, negsuc, ◌+ℤ◌, ◌-ℤ◌}
use qing_stor_c_sdk.Errors.{Result, ok, fault}
use qing_stor_c_sdk.Common.Header.{RequestType}
use qing_stor_c_sdk.Config.{Configuration, from_values}
use qing_stor_c_sdk.Request.Outcome.{Outcome, gives_json}
use qing_stor_c_sdk.Pipeline.End.{open_reader, new_pipeline}
use qing_stor_c_sdk.Reader.{chunk_len, chunk_sizes, chunks, chunk_fetcher, setup_pipeline}
use qing_stor_c_sdk.Reader.Plan.{Tiles}
use qing_stor_c_sdk.Pipeline.{Pipeline}
use qing_stor_c_sdk.Pipeline.Launch.{spans}
use qing_stor_c_sdk.Writer.Requests.{Client}
use qing_stor_c_sdk.Context.{head_object_of}
use qing_stor_c_sdk.Context.Extract.{JsonNumbers, HeadObjectResult, extract_head_object_content}
use qing_stor_c_sdk.Interface.{Api, Texts}
use qing_stor_c_sdk.Interface.Contexts.{init_context_from_file}
use qing_stor_c_sdk.Interface.Handles.{Object, as_read, object_info}
use qing_stor_c_sdk.Interface.Objects.{get_object, close_object}
use qing_stor_c_sdk.Interface.Init.{init_context_from_file-fault}
use qing_stor_c_sdk.Interface.Ranges.{reader_of_chunks, get_object-Tiles}
use qing_stor_c_sdk.Interface.Unread.{get_object-close_object}

-- A server that grants every request; a value of json-c is a text, and every number is 5.
abbrev pub answer : RequestType → Result (Option Bytes)
answer kind = ok (if gives_json kind then some (codes "id") else none)

pub answer-Outcome : (kind : RequestType) → Outcome kind (answer kind)
answer-Outcome kind = ground arith

abbrev pub granting : Client ℕ Bytes
granting = record {
  run = λ q md retries n. (answer q.kind, suc n);
  run-Outcome = λ q md retries n. answer-Outcome q.kind;
  get_ex = λ j name. if bytes_eq name (codes "code") then none else some j;
  get_string = λ j. some j;
  parts_text = λ numbers. map (λ i. b'0' + i) numbers;
}

abbrev pub numbers : JsonNumbers Bytes
numbers = record { get_int = λ j. pos 5; get_int64 = λ j. pos 5; elements = λ j. [] }

abbrev pub texts : Texts
texts = record {
  whats = λ e. codes "E" ∷ [];
  strerror_r = λ n. codes "invalid";
  einval_number = 22;
}

abbrev pub config : Configuration
config = from_values (codes "pek") (codes "I") (codes "S") (pos 2)

abbrev pub start : Api ℕ
start = record { errno = none; message = codes "Success"; world = 0; issued = [] }

abbrev pub b : Option Bytes
b = some (codes "b")

abbrev pub k : Option Bytes
k = some (codes "k")

init_context_from_file-fault_example :
    init_context_from_file texts (some (codes "f")) true (some []) start ≡ (fault, start)
init_context_from_file-fault_example =
    init_context_from_file-fault texts (some (codes "f")) true (some []) start

-- The object has 5 bytes.
abbrev pub head : HeadObjectResult
head = record {
  content_type = codes "id";
  content_length = pos 5;
  last_modified = codes "id";
  etag = [];
}

pub head_run : (head_object_of granting numbers config (codes "b") (codes "k") 0).0 ≡ ok head
unfolding head_object_of extract_head_object_content
head_run = refl

-- `qingstorGetObject(context, "b", "k", -1, -1)`
abbrev Opens : Type 0
Opens =
    (p : Pipeline) × (get_object texts granting numbers 6 true (some config) b k (negsuc 0)
        (negsuc 0) start
      ≡ some (
        ok (some (as_read p)),
        record start {
          world = (head_object_of granting numbers config (codes "b") (codes "k") 0).1;
        },
      ))
    × (p.active ≡ [])
    × (p.connections ≡ pos 3)
    × Tiles (pos 2) (pos 0) (pos 4) (spans p.pending)

get_object-Tiles_example : Opens
unfolding ◌-ℤ◌ ◌+ℤ◌
get_object-Tiles_example =
    get_object-Tiles texts granting numbers 5 config (codes "b") (codes "k") (negsuc 0) (negsuc 0)
      start head refl refl (omega arith) (omega arith) (omega arith) (omega arith) head_run
      (omega arith) (omega arith)

abbrev pub opened : Api ℕ
opened = record start { world = 1 }

abbrev chunks_of_five : List (ℤ × ℤ)
chunks_of_five = (pos 0, pos 2) ∷ (pos 2, pos 2) ∷ (pos 4, pos 1) ∷ []

abbrev unread : Object
unread =
    reader_of_chunks texts granting numbers config (codes "b")
      (object_info (codes "k") head (negsuc 0) (negsuc 0)) chunks_of_five

get_run :
    get_object texts granting numbers 6 true (some config) b k (negsuc 0) (negsuc 0) start
    ≡ some (ok (some unread), opened)
unfolding get_object object_info head_object_of extract_head_object_content setup_pipeline chunks
    chunk_fetcher open_reader new_pipeline chunk_len chunk_sizes ◌+ℤ◌ ◌-ℤ◌
get_run = refl

get_object-close_object_example :
    close_object texts granting numbers (some unread) start ≡ (fault, start)
get_object-close_object_example =
    get_object-close_object texts granting numbers 6 true (some config) b k (negsuc 0) (negsuc 0)
      start opened start unread get_run
