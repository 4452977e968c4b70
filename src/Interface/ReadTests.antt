-- ===== src/Interface/ReadTests.antt =====
-- A run of `qingstorRead` (src/QingStor.cpp) with two fetchers, and the theorem at it.
use qing_stor_c_sdk.Prelude.{true, [], ◌∷◌, codes, none, some, if◌then◌else◌, arith, ℕ}
use qing_stor_c_sdk.Prelude.Int.{ℤ, pos, eqb_ℤ}
use qing_stor_c_sdk.Config.{Configuration, from_values}
use qing_stor_c_sdk.Common.Signature.{Crypto}
use qing_stor_c_sdk.Common.Url.{UrlParser}
use qing_stor_c_sdk.Fetcher.{Fetcher, new_fetcher, curle_ok}
use qing_stor_c_sdk.Fetcher.Start.{Answers}
use qing_stor_c_sdk.Pipeline.{Pipeline, Round}
use qing_stor_c_sdk.Interface.{Api, Texts}
use qing_stor_c_sdk.Interface.Handles.{as_read}
use qing_stor_c_sdk.Interface.Objects.{read_object}
use qing_stor_c_sdk.Interface.Reading.{ReadVerdictIf, read_object-ReadVerdict}

abbrev crypto : Crypto
crypto = record { hmac_sha256 = λ key text. key; base64 = λ b. b }

abbrev scan : UrlParser
scan url =
    some (record { schema = some (0, 4); host = some (7, 1); path = some (8, 2); query = none })

abbrev part : ℤ → Fetcher
part offset =
    new_fetcher (codes "http://h/k") (codes "h") (codes "b")
      (record { keyid = codes "I"; secret = codes "S" }) (pos 2) offset (pos 2)

abbrev two_parts : Pipeline
two_parts = record { active = []; pending = part (pos 0) ∷ part (pos 2) ∷ []; connections = pos 2 }

-- The first part gets the handle 1, the second the handle 2.
abbrev answers : Fetcher → Answers
answers f = record {
  malloc_ok = true;
  easy_handle = some (if eqb_ℤ f.offset (pos 0) then 1 else 2);
  timebuf = codes "D";
}

-- A round in which both parts arrive, the second first.
abbrev both : Round
both = record {
  answers = answers;
  resumed = [];
  wait_ok = true;
  perform_ok = true;
  chunks = (2, codes "cd") ∷ (1, codes "ab") ∷ [];
  messages = (2, (curle_ok, some 206)) ∷ (1, (curle_ok, some 206)) ∷ [];
}

abbrev texts : Texts
texts = record {
  whats = λ e. codes "E" ∷ [];
  strerror_r = λ n. codes "invalid";
  einval_number = 22;
}

abbrev config : Configuration
config = from_values (codes "pek") (codes "I") (codes "S") (pos 2)

abbrev start : Api ℕ
start = record { errno = none; message = codes "Success"; world = 0; issued = [] }

read_object-ReadVerdict_example : ReadVerdictIf texts 9 two_parts start (
    read_object texts crypto scan 4
      (both ∷ both ∷ [])
      (some config)
      (some (as_read two_parts))
      true
      (pos 9)
      start)
read_object-ReadVerdict_example =
    read_object-ReadVerdict texts crypto scan 4 (both ∷ both ∷ []) (some config) two_parts true
      (pos 9) start (omega arith)
