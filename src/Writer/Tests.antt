-- ===== src/Writer/Tests.antt =====
-- Runs of src/QingStorWriter.cpp with a buffer of two bytes, and the theorems at them.
use qing_stor_c_sdk.Prelude.{
  ℕ, suc, ◌+◌, ◌≡◌, refl, true, false, List, [], ◌∷◌, Bytes, codes, if◌then◌else◌, bytes_eq, Option,
  none, some, arith, map, take, drop,
}
use qing_stor_c_sdk.Prelude.Int.{pos}
use qing_stor_c_sdk.Errors.{ok, Result}
use qing_stor_c_sdk.Common.Header.{RequestType}
use qing_stor_c_sdk.Common.Buffer.{concat}
use qing_stor_c_sdk.Config.{Configuration, from_values}
use qing_stor_c_sdk.Request.Outcome.{Outcome, gives_json}
use qing_stor_c_sdk.Writer.{
  Writer, Session, Issued, Step, transfer_data, fill, do_send, flush, complete, close,
}
use qing_stor_c_sdk.Writer.Requests.{Client}
use qing_stor_c_sdk.Writer.Fill.{IsFresh, IsWriter-IsBuffered, filled, fill_lem}
use qing_stor_c_sdk.Writer.Moves.{Pumped}
use qing_stor_c_sdk.Writer.Parts.{transfer_data-Pumped}
use qing_stor_c_sdk.Writer.Upload.{whole_upload, Uploaded, whole_upload-Uploaded}

-- The answer to a request that is granted.
abbrev answer : RequestType → Result (Option Bytes)
answer kind = ok (if gives_json kind then some (codes "id") else none)

answer-Outcome : (kind : RequestType) → Outcome kind (answer kind)
answer-Outcome kind = ground arith

-- A server that grants every request; the world counts them. A value of json-c is a text.
abbrev granting : Client ℕ Bytes
granting = record {
  run = λ q md retries n. (answer q.kind, suc n);
  run-Outcome = λ q md retries n. answer-Outcome q.kind;
  get_ex = λ j name. if bytes_eq name (codes "code") then none else some j;
  get_string = λ j. some j;
  parts_text = λ numbers. map (λ i. b'0' + i) numbers;
}

abbrev config : Configuration
config = from_values (codes "pek") (codes "I") (codes "S") (pos 2)

abbrev fresh : Writer
fresh = record {
  config = config;
  bucket = codes "b";
  upload_id = codes "id";
  key = codes "k";
  cred = record { keyid = codes "I"; secret = codes "S" };
  buffer = some [];
  buff_size = 2;
  write_pos = 0;
  part_num = 0;
  canceled = false;
  cache = true;
}

abbrev session : Session ℕ
session = record { writer = fresh; world = 0; issued = [] }

fresh-IsFresh : IsFresh fresh
fresh-IsFresh = record {
  valid = record {
    caches = refl;
    buffered = refl;
    counted = refl;
    inside = omega arith;
    room = omega arith;
    small = omega arith;
  };
  nothing_held = refl;
  no_part = refl;
  not_canceled = refl;
}

-- The texts that a list of requests sends.
abbrev bodies : List Issued → List Bytes
bodies [] = []
bodies ((q, none) ∷ cs) = bodies cs
bodies ((q, some m) ∷ cs) = m.advance ∷ bodies cs

abbrev issued_of : Option (Step granting) → List Issued
issued_of none = []
issued_of (some (r, s)) = s.issued

-- Five bytes in two writes: two full parts, the last byte, and the numbers of three parts.
upload_run :
    bodies (issued_of (whole_upload granting (codes "abc" ∷ codes "de" ∷ []) session))
    ≡ codes "ab" ∷ codes "cd" ∷ codes "e" ∷ codes "012" ∷ []
unfolding transfer_data close flush complete fill
upload_run = refl

-- Without a buffer an upload that nothing is written to has one empty part.
abbrev direct : Session ℕ
direct = record session { writer = record fresh { cache = false; buffer = none } }

empty_run : bodies (close granting direct).1.issued ≡ [] ∷ codes "0" ∷ []
unfolding close flush complete do_send
empty_run = refl

transfer_data-Pumped_example :
    (step : Step granting) × (transfer_data granting (codes "abc") session ≡ some step)
    × Pumped granting session (codes "abc") step
transfer_data-Pumped_example =
    transfer_data-Pumped granting session (codes "abc") fresh-IsFresh.valid (omega arith)

whole_upload-Uploaded_example :
    (step : Step granting) × (whole_upload granting (codes "abc" ∷ codes "de" ∷ []) session
      ≡ some step)
    × Uploaded granting session (concat (codes "abc" ∷ codes "de" ∷ [])) step
whole_upload-Uploaded_example =
    whole_upload-Uploaded granting (codes "abc" ∷ codes "de" ∷ []) session fresh-IsFresh

fill_lem_example :
    fill (codes "abc") fresh ≡ ok (drop 2 (codes "abc"), filled fresh (take 2 (codes "abc")))
fill_lem_example = fill_lem (codes "abc") fresh (IsWriter-IsBuffered fresh fresh-IsFresh.valid)
