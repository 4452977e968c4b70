-- ===== src/Interface/DownloadTests.antt =====
-- A whole download through src/QingStor.cpp in two chunks, and the theorems at it.
use qing_stor_c_sdk.Prelude.{
  ℕ, ◌^◌, ◌<◌, ◌≡◌, refl, ap, true, false, List, [], ◌∷◌, Bytes, codes, if◌then◌else◌, Option, none,
  some, arith,
}
use qing_stor_c_sdk.Prelude.Int.{ℤ, pos, pos_part, neg_part, ◌≤ℤ◌, eqb_ℤ, ◌+ℤ◌, ◌-ℤ◌}
use qing_stor_c_sdk.Errors.{Result, ok}
use qing_stor_c_sdk.Common.Header.{header_add}
use qing_stor_c_sdk.Common.Signature.{Crypto, signature}
use qing_stor_c_sdk.Common.Url.{UrlParser, qs_parse_url}
use qing_stor_c_sdk.Reader.{chunk_len, chunk_sizes, chunks, chunk_fetcher, setup_pipeline}
use qing_stor_c_sdk.Fetcher.{Fetcher, curle_ok, get, get_available, writer_callback, handle_result}
use qing_stor_c_sdk.Fetcher.Start.{Answers, start, begin, ensure_buffer, attach, sign_headers}
use qing_stor_c_sdk.Context.{head_object_of}
use qing_stor_c_sdk.Context.Extract.{extract_head_object_content}
use qing_stor_c_sdk.Pipeline.{Pipeline, Round, launch, launch_from, round, read, transfer_data}
use qing_stor_c_sdk.Pipeline.End.{open_reader, new_pipeline}
use qing_stor_c_sdk.Pipeline.Download.{IsSoundPipeline}
use qing_stor_c_sdk.Pipeline.Download.Opened.{between, chunk_fetchers-AllSound}
use qing_stor_c_sdk.Pipeline.Download.Read.{FitsRounds, ReadHandsOut, read-HandsOut}
use qing_stor_c_sdk.Interface.{Api}
use qing_stor_c_sdk.Interface.Handles.{
  Pointer, reader_of, Object, as_read, object_info, get_reader, range_start_of, range_end_of,
}
use qing_stor_c_sdk.Interface.Objects.{get_object, read_object}
use qing_stor_c_sdk.Interface.Download.Whole.{
  Downloaded, last, more, pipeline_of, get_object-Downloaded,
}
use qing_stor_c_sdk.Interface.Tests.{granting, numbers, texts, config, head, head_run, b, k}

abbrev crypto : Crypto
crypto = record { hmac_sha256 = λ key text. key; base64 = λ b. b }

abbrev scan : UrlParser
scan url =
    some (record { schema = some (0, 4); host = some (7, 1); path = some (8, 2); query = none })

abbrev contents : Bytes
contents = codes "abcde"

-- The chunk at 1 gets the handle 1, the other one the handle 2.
abbrev answers : Fetcher → Answers
answers f = record {
  malloc_ok = true;
  easy_handle = some (if eqb_ℤ f.offset (pos 1) then 1 else 2);
  timebuf = codes "D";
}

-- A round in which both chunks arrive, the second first.
abbrev both : Round
both = record {
  answers = answers;
  resumed = [];
  wait_ok = true;
  perform_ok = true;
  chunks = (2, codes "d") ∷ (1, codes "b") ∷ (1, codes "c") ∷ [];
  messages = (2, (curle_ok, some 206)) ∷ (1, (curle_ok, some 206)) ∷ [];
}

abbrev fresh : Api ℕ
fresh = record { errno = none; message = codes "Success"; world = 0; issued = [] }

-- Behind the head request.
abbrev opened : Api ℕ
opened = record fresh { world = 1 }

abbrev rounds : List Round
rounds = both ∷ both ∷ []

-- `qingstorGetObject(context, "b", "k", 1, 3)`
abbrev opened_state : Option (Result (Option Object) × Api ℕ)
opened_state = get_object texts granting numbers 4 true (some config) b k (pos 1) (pos 3) fresh

abbrev nothing_open : Pipeline
nothing_open = record { active = []; pending = []; connections = pos 0 }

abbrev p0 : Pipeline
p0 = pipeline_of nothing_open opened_state

-- `qingstorRead` with an array of 9 bytes.
abbrev call : Pipeline → Option (Result (ℤ × Bytes) × (Option Object × Api ℕ))
call p = read_object texts crypto scan 4 rounds (some config) (some (as_read p)) true (pos 9) opened

abbrev pointed : Pointer → Pipeline
pointed (reader_of q) = q
pointed _ = nothing_open

abbrev left_by : Option (Result (ℤ × Bytes) × (Option Object × Api ℕ)) → Pipeline
left_by (some (r, (some o, a))) = pointed o.rw
left_by _ = nothing_open

abbrev small : 4 < 2 ^ 63
small = omega arith

-- What the rounds deliver is the object.
abbrev Delivers : Pipeline → Type 0
Delivers p = FitsRounds contents crypto scan 4 small rounds 9 p

abbrev p1 : Pipeline
p1 = left_by (call p0)

abbrev p2 : Pipeline
p2 = left_by (call p1)

no : false ≡ true → ⊥
no e = cc

yes : true ≡ false → ⊥
yes e = cc

-- The object is opened; the first call gets the first chunk, the second one the second, the third
-- none; and what the rounds deliver is the object.
abbrev Runs : Type 0
Runs =
    (opened_state ≡ some (ok (some (as_read p0)), opened))
    × (call p0 ≡ some (ok (pos 2, codes "bc"), (some (as_read p1), opened)))
    × (call p1 ≡ some (ok (pos 1, codes "d"), (some (as_read p2), opened)))
    × (call p2 ≡ some (ok (pos 0, []), (some (as_read (left_by (call p2))), opened)))
    × Delivers p0
    × Delivers p1
    × Delivers p2
    × IsSoundPipeline contents p0
    × (p0.connections ≡ pos 3)

runs : Runs
unfolding get_object object_info head_object_of extract_head_object_content setup_pipeline chunks
    chunk_fetcher open_reader new_pipeline chunk_len chunk_sizes ◌+ℤ◌ ◌-ℤ◌ read_object get_reader
    transfer_data launch launch_from start begin ensure_buffer attach sign_headers signature round
    qs_parse_url header_add get get_available writer_callback handle_result
runs = (
  refl,
  refl,
  refl,
  refl,
  (
    (
      tt,
      λ going none_held. (
        (
          (λ e. absurd (no e), λ e. (λ e. ([], refl), λ e. tt)),
          (
            (λ e. (codes "c", refl), λ e. absurd (yes e)),
            ((λ e. ([], refl), λ e. absurd (yes e)), tt),
          ),
        ),
        (
          (λ e. absurd (no e), λ e. (λ e d. refl, λ e. tt)),
          ((λ e d. refl, λ e. absurd (yes e)), tt),
        ),
      ),
    ),
    ((tt, λ going none_held. absurd (no none_held)), tt),
  ),
  ((tt, λ going. absurd (yes going)), ((tt, λ going none_held. absurd (no none_held)), tt)),
  ((tt, λ going. absurd (yes going)), (tt, tt)),
  (
    tt,
    chunk_fetchers-AllSound contents config (codes "b")
        (object_info (codes "k") head (pos 1) (pos 3)) ((pos 1, pos 2) ∷ (pos 3, pos 1) ∷ []),
  ),
  refl,
)

downloaded : Downloaded texts contents crypto scan 4 small config p0 opened (codes "bcd")
downloaded =
    let (gets, one, two, three, fits0, fits1, fits2, sound, connected) = runs in
    more rounds (pos 9) (pos 2) p0 p1 opened opened (codes "bc") (codes "d") fits0 one (
      more rounds (pos 9) (pos 1) p1 p2 opened opened (codes "d") [] fits1 two
        (last rounds (pos 9) p2 (left_by (call p2)) opened opened fits2 three))

get_object-Downloaded_example :
    codes "bcd" ≡ between contents (range_start_of (pos 1)) (range_end_of (pos 5) (pos 3))
unfolding ◌-ℤ◌ ◌+ℤ◌
get_object-Downloaded_example =
    get_object-Downloaded texts granting numbers contents crypto scan 4 small 3 config (codes "b")
      (codes "k") (pos 1) (pos 3) fresh head p0 opened (codes "bcd") refl refl (omega arith)
      (omega arith) (omega arith) (omega arith) head_run (omega arith) (omega arith) runs.0
      downloaded

connected : pos 1 ≤ℤ p0.connections
connected = omega (arith, ap pos_part runs.8, ap neg_part runs.8)

read-HandsOut_example :
    ReadHandsOut contents crypto scan 4 small p0 (read crypto scan 4 rounds 9 p0)
read-HandsOut_example =
    read-HandsOut contents crypto scan 4 small rounds 9 p0 connected runs.7 runs.4
