-- ===== src/Request/Tests.antt =====
-- Runs of `DoGetJSON` against a connection that breaks once, and the theorems at them.
use qing_stor_c_sdk.Prelude.{
  ℕ, suc, ◌≡◌, refl, ◌==◌, true, false, max, [], ◌∷◌, Bytes, codes, if◌then◌else◌, none, some,
}
use qing_stor_c_sdk.Errors.{ok}
use qing_stor_c_sdk.Common.Header.{upload_mp, header_add}
use qing_stor_c_sdk.Common.Signature.{signature, authorization_value}
use qing_stor_c_sdk.Common.Url.{qs_parse_url, fields_of, resource}
use qing_stor_c_sdk.Common.Upload.{MemoryData, send_body, mem_read_callback}
use qing_stor_c_sdk.Common.Buffer.{receive}
use qing_stor_c_sdk.Request.{
  Transfer, Platform, Request, request_options, transfer_result, response, attempt, attempts,
  do_get_json,
}
use qing_stor_c_sdk.Request.Outcome.{Outcome, do_get_json-Outcome}
use qing_stor_c_sdk.Request.Retry.{Retried, do_get_json-Retried, SendsOnce, do_get_json-SendsOnce}

-- The world counts the transfers. The first takes all but the last two bytes and fails; the others
-- read on and succeed without a body.
abbrev flaky_transfer : ℕ → Transfer
flaky_transfer n =
    if n == 0
    then record { is_ok = false; reads = 3 ∷ []; body_chunks = []; header_chunks = [] }
    else record { is_ok = true; reads = 9 ∷ []; body_chunks = []; header_chunks = [] }

abbrev flaky : Platform ℕ Bytes
flaky = record {
  easy_init = λ n. (true, n);
  perform = λ options text n. (flaky_transfer n, suc n);
  timebuf = λ n. codes "D";
  tokener_parse = λ text. some text;
  crypto = record { hmac_sha256 = λ key text. key; base64 = λ b. b };
  scan = λ u.
      some (record { schema = some (0, 4); host = some (7, 1); path = some (8, 2); query = none });
}

abbrev put_part : Request
put_part = record {
  host_name = codes "h";
  url_text = codes "http://h/k";
  bucket = some (codes "b");
  place = none;
  cred = record { keyid = []; secret = [] };
  kind = upload_mp;
}

abbrev hello : MemoryData
hello = record { advance = codes "hello"; sizeleft = 5 }

-- With two tries the request succeeds, and the attempt that does has sent two bytes of five.
retry_run : do_get_json flaky put_part (some hello) 2 0 ≡ record {
  result = ok none;
  memory = some (record { advance = []; sizeleft = 0 });
  sent = codes "hello";
  world = 2;
}
unfolding do_get_json attempts attempt transfer_result response request_options signature header_add
    authorization_value qs_parse_url fields_of resource send_body mem_read_callback receive
retry_run = refl

do_get_json-Outcome_example : Outcome upload_mp (do_get_json flaky put_part (some hello) 2 0).result
do_get_json-Outcome_example = do_get_json-Outcome flaky put_part (some hello) 2 0

do_get_json-Retried_example :
    Retried flaky put_part (max 1 2) (some hello) 0 (do_get_json flaky put_part (some hello) 2 0)
do_get_json-Retried_example = do_get_json-Retried flaky put_part (some hello) 2 0

do_get_json-SendsOnce_example :
    SendsOnce flaky put_part hello (do_get_json flaky put_part (some hello) 2 0)
do_get_json-SendsOnce_example = do_get_json-SendsOnce flaky put_part hello 2 0 refl
