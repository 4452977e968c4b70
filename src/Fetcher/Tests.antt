-- ===== src/Fetcher/Tests.antt =====
-- Runs of src/HTTPFetcher.cpp on a small buffer, and the theorems at them.
use qing_stor_c_sdk.Prelude.{
  ◌+◌, ◌≡◌, refl, true, false, List, [], ◌∷◌, ◌++◌, codes, length, is_empty, none, some, arith,
}
use qing_stor_c_sdk.Prelude.Int.{pos, ◌+ℤ◌, ◌-ℤ◌, ◌≤ℤ◌}
use qing_stor_c_sdk.Errors.{ok}
use qing_stor_c_sdk.Common.Header.{HeaderContent, header_add}
use qing_stor_c_sdk.Common.Signature.{Crypto, signature, authorization_value}
use qing_stor_c_sdk.Common.Url.{UrlParser, qs_parse_url, resource}
use qing_stor_c_sdk.Fetcher.{
  Fetcher, running, failed, null, handle, new_fetcher, Release, multi_remove, easy_cleanup,
  slist_free, writer_callback, taken, pause, curle_ok, operation_timedout, handle_result,
}
use qing_stor_c_sdk.Fetcher.Stream.{unread, IsFetcher, Wrote, writer_callback-Wrote}
use qing_stor_c_sdk.Fetcher.Stream.Session.{Event, chunk, ask, session, session_fifo}
use qing_stor_c_sdk.Fetcher.Start.{
  Answers, request_headers, attach, ensure_buffer, sign_headers, begin, start,
}
use qing_stor_c_sdk.Fetcher.Resume.{InOrder, range_request, Started, start-Started}
use qing_stor_c_sdk.Fetcher.ErrorBody.{HandsBody, handle_result-HandsBody}
use qing_stor_c_sdk.Fetcher.Life.{Ended, IsRunning, handle_result-Ended, restart_keeps_old_range}

abbrev crypto : Crypto
crypto = record { hmac_sha256 = λ key text. key; base64 = λ b. b }

-- The fields of "http://h/k".
abbrev scan : UrlParser
scan url =
    some (record { schema = some (0, 4); host = some (7, 1); path = some (8, 2); query = none })

abbrev fresh : Fetcher
fresh =
    new_fetcher (codes "http://h/k") (codes "h") (codes "b")
      (record { keyid = codes "I"; secret = codes "S" }) (pos 4) (pos 100) (pos 10)

abbrev answers : Answers
answers = record { malloc_ok = true; easy_handle = some 7; timebuf = codes "D" }

-- Started, with a buffer of four bytes that holds one unread byte behind one that was read.
abbrev busy : Fetcher
busy = record fresh {
  state = running;
  curl = handle 7;
  parent = true;
  http_headers = some [];
  read_buff = some (codes "abcd");
  buff_size = 4;
  nused = 2;
  read_off = 1;
  bytes_done = 1;
}

busy-IsFetcher : IsFetcher busy
busy-IsFetcher = record {
  array = refl;
  sized = refl;
  order = omega arith;
  inside = omega arith;
  small = omega arith;
}

-- The third byte fits only once the valid byte has moved to the front.
writer_callback_shifts :
    ((writer_callback (codes "xyz") busy).0 ≡ taken 3)
    × (unread (writer_callback (codes "xyz") busy).1 ≡ codes "bxyz")
    × ((writer_callback (codes "wxyz") busy).0 ≡ pause)
unfolding writer_callback
writer_callback_shifts = (refl, refl, refl)

writer_callback-Wrote_example : Wrote busy (codes "xyz") (writer_callback (codes "xyz") busy)
writer_callback-Wrote_example = writer_callback-Wrote busy (codes "xyz") busy-IsFetcher

abbrev events : List Event
events = chunk (codes "xyz") ∷ ask 2 ∷ chunk (codes "uvw") ∷ ask 9 ∷ []

session_fifo_example :
    (unread busy ++ (session events busy).received
      ≡ (session events busy).handed ++ unread (session events busy).fetcher)
    × ((session events busy).fetcher.bytes_done
        ≡ busy.bytes_done + length (session events busy).handed)
    × IsFetcher (session events busy).fetcher
session_fifo_example = session_fifo events busy busy-IsFetcher

-- A buffer of four bytes is used where curl passes at most four at once.
abbrev first : Fetcher
first = (start crypto scan 4 answers fresh).1

started : start crypto scan 4 answers fresh ≡ (ok tt, first)
unfolding start begin ensure_buffer attach request_headers sign_headers signature header_add
    qs_parse_url resource authorization_value ◌+ℤ◌ ◌-ℤ◌
started = refl

start-Started_example : Started crypto scan (codes "D") fresh first
start-Started_example =
    start-Started crypto scan 4 answers fresh (omega arith) (omega arith) refl started

busy-IsRunning : IsRunning busy 7
busy-IsRunning = record { handled = refl; attached = refl; passed = ([], refl) }

handle_result-Ended_example :
    (out : Fetcher × List Release) × (handle_result curle_ok (some 206) busy ≡ ok out)
    × Ended busy true 7 out
handle_result-Ended_example =
    handle_result-Ended busy 7 busy-IsRunning curle_ok (some 206) (omega arith)

-- All that arrived has been read.
abbrev drained : Fetcher
drained = record busy { read_off = 2 }

drained-IsFetcher : IsFetcher drained
drained-IsFetcher = record {
  array = refl;
  sized = refl;
  order = omega arith;
  inside = omega arith;
  small = omega arith;
}

-- The body of a 404 response.
handle_result-HandsBody_example :
    (out : Fetcher × List Release) × (handle_result curle_ok
        (some 404)
        (writer_callback (codes "no") drained).1
      ≡ ok out)
    × HandsBody drained (codes "no") 9 out
handle_result-HandsBody_example =
    handle_result-HandsBody drained 7 9 (codes "no") 404 drained-IsFetcher
      (record { handled = refl; attached = refl; passed = ([], refl) }) refl (omega arith)
      (omega arith) refl

-- The first fetcher after a time-out, and after its second start.
abbrev timed_out : Fetcher
timed_out = record first {
  curl = null;
  parent = false;
  http_headers = none;
  state = failed;
  nfailures = 1;
}

abbrev second : Fetcher
second = (start crypto scan 4 answers timed_out).1

first_fails :
    handle_result operation_timedout none first
    ≡ ok (timed_out, multi_remove 7 ∷ easy_cleanup 7 ∷ slist_free ∷ [])
unfolding handle_result start begin ensure_buffer attach request_headers sign_headers signature
    header_add qs_parse_url resource authorization_value ◌+ℤ◌ ◌-ℤ◌
first_fails = refl

restarted : start crypto scan 4 answers timed_out ≡ (ok tt, second)
unfolding start begin ensure_buffer attach request_headers sign_headers signature header_add
    qs_parse_url resource authorization_value ◌+ℤ◌ ◌-ℤ◌
restarted = refl

timed_out_ready : InOrder timed_out × (pos 0 ≤ℤ timed_out.len) × (is_empty timed_out.host ≡ false)
unfolding start begin ensure_buffer attach sign_headers signature qs_parse_url resource
timed_out_ready = (omega arith, omega arith, refl)

restart_keeps_old_range_example :
    (signed rest : HeaderContent) × (second.headers
      ≡ (((fresh.headers ++ range_request fresh) ++ signed) ++ range_request timed_out) ++ rest)
restart_keeps_old_range_example =
    restart_keeps_old_range crypto scan 4 answers answers operation_timedout none fresh first
      timed_out second (multi_remove 7 ∷ easy_cleanup 7 ∷ slist_free ∷ [])
      (omega arith, omega arith, refl) timed_out_ready started first_fails restarted
