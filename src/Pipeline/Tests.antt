-- ===== src/Pipeline/Tests.antt =====
-- A run of src/DownloadPipeline.cpp with two fetchers, and the theorems at it.
use qing_stor_c_sdk.Prelude.{
  ◌≡◌, refl, true, false, List, [], ◌∷◌, Bytes, codes, Option, none, some, if◌then◌else◌, arith,
}
use qing_stor_c_sdk.Prelude.Int.{ℤ, pos, eqb_ℤ, ◌+ℤ◌, ◌-ℤ◌}
use qing_stor_c_sdk.Errors.{Result, ok}
use qing_stor_c_sdk.Common.Header.{header_add}
use qing_stor_c_sdk.Common.Signature.{Crypto, signature}
use qing_stor_c_sdk.Common.Url.{UrlParser, qs_parse_url}
use qing_stor_c_sdk.Fetcher.{
  Fetcher, Got, new_fetcher, curle_ok, get, get_available, writer_callback, handle_result,
}
use qing_stor_c_sdk.Fetcher.Start.{Answers, start, begin, ensure_buffer, attach, sign_headers}
use qing_stor_c_sdk.Pipeline.{Pipeline, Round, launch, launch_from, read, transfer_data}
use qing_stor_c_sdk.Pipeline.Launch.{Launched, launch-Launched}
use qing_stor_c_sdk.Pipeline.Stuck.{IsStuck, GetsNothing}
use qing_stor_c_sdk.Pipeline.Refused.{Threw, behind_read, behind_reads, read-Threw}

abbrev crypto : Crypto
crypto = record { hmac_sha256 = λ key text. key; base64 = λ b. b }

abbrev scan : UrlParser
scan url =
    some (record { schema = some (0, 4); host = some (7, 1); path = some (8, 2); query = none })

abbrev part : ℤ → Fetcher
part offset =
    new_fetcher (codes "http://h/k") (codes "h") (codes "b")
      (record { keyid = codes "I"; secret = codes "S" }) (pos 2) offset (pos 2)

abbrev two_parts : Pipeline
two_parts = record { active = []; pending = part (pos 0) ∷ part (pos 2) ∷ []; connections = pos 2 }

-- The first part gets the handle 1, the second the handle 2.
abbrev answers : Fetcher → Answers
answers f = record {
  malloc_ok = true;
  easy_handle = some (if eqb_ℤ f.offset (pos 0) then 1 else 2);
  timebuf = codes "D";
}

-- A round in which both parts arrive, the second first.
abbrev both : Round
both = record {
  answers = answers;
  resumed = [];
  wait_ok = true;
  perform_ok = true;
  chunks = (2, codes "cd") ∷ (1, codes "ab") ∷ [];
  messages = (2, (curle_ok, some 206)) ∷ (1, (curle_ok, some 206)) ∷ [];
}

abbrev answer_of : Option (Result Bytes × Pipeline) → Option (Result Bytes)
answer_of none = none
answer_of (some (r, p)) = some r

-- The caller gets the bytes of the first part first.
read_run :
    answer_of (transfer_data crypto scan 4 (both ∷ both ∷ []) 9 two_parts) ≡ some (ok (codes "ab"))
unfolding transfer_data launch launch_from start begin ensure_buffer attach sign_headers signature
    qs_parse_url header_add get get_available writer_callback handle_result ◌+ℤ◌ ◌-ℤ◌
read_run = refl

launch-Launched_example : Launched two_parts (launch crypto scan 4 answers two_parts)
launch-Launched_example = launch-Launched crypto scan 4 answers two_parts

-- A round in which curl gives no handle.
abbrev no_handles : Round
no_handles = record both {
  answers = λ f. record { malloc_ok = true; easy_handle = none; timebuf = [] };
}

abbrev first_read : Option (Result Got × Pipeline)
first_read = read crypto scan 4 (no_handles ∷ []) 9 two_parts

part-IsStuck : IsStuck (part (pos 0))
part-IsStuck = record { idle = refl; no_handle = refl; not_paused = refl; empty = refl }

read-Threw_example :
    Threw first_read
    × GetsNothing crypto scan 4 (
        read crypto scan 4
          (both ∷ both ∷ [])
          9
          (behind_reads crypto scan 4 ((both ∷ [], 9) ∷ []) (behind_read two_parts first_read)))
read-Threw_example =
    read-Threw crypto scan 4 no_handles [] (both ∷ both ∷ []) 9 9 ((both ∷ [], 9) ∷ [])
      (part (pos 0)) (part (pos 2) ∷ []) (pos 2) (omega arith) part-IsStuck refl

abbrev five_rounds : List Round
five_rounds = both ∷ both ∷ both ∷ both ∷ both ∷ []

no : false ≡ true → ⊥
no e = cc
