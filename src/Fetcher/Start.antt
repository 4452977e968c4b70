-- ===== src/Fetcher/Start.antt =====
-- `HTTPFetcher::start` (src/HTTPFetcher.cpp): the buffer, the curl handle, and the headers of the
-- request. What it calls outside: `malloc`, `curl_easy_init`, the clock, the URL scanner, OpenSSL.
use qing_stor_c_sdk.Prelude.{
  ℕ, Bool, true, false, ◌||◌, not, ◌++◌, Bytes, codes, replicate, if◌then◌else◌, Option, none, some,
}
use qing_stor_c_sdk.Prelude.Int.{ℤ, pos, ◌+ℤ◌, ◌-ℤ◌, ltb_ℤ, pos_part, decimal_ℤ}
use qing_stor_c_sdk.Errors.{Result, ok, throw, fault, ◌>>=◌, qingstor, network, out_of_memory}
use qing_stor_c_sdk.Common.Header.{HeaderContent, add, host, range, get_data}
use qing_stor_c_sdk.Common.Signature.{Crypto, signature}
use qing_stor_c_sdk.Common.Url.{UrlParser, qs_parse_url, resource}
use qing_stor_c_sdk.Fetcher.{Fetcher, FetcherState, init, running, failed, handle, sub_size}

-- What the surroundings answer during one call: whether `malloc` succeeds, the handle that
-- `curl_easy_init` makes, and the date.
pub record Answers : Type 0 where
  pub malloc_ok : Bool
  pub easy_handle : Option ℕ
  pub timebuf : Bytes

-- `CURL_MAX_WRITE_SIZE > mConfBuffSize ? CURL_MAX_WRITE_SIZE : mConfBuffSize`
abbrev pub wanted_size : ℕ → ℤ → ℕ
wanted_size max_write conf = if ltb_ℤ conf (pos max_write) then max_write else pos_part conf

-- The buffer is allotted once; its first bytes are indeterminate, and never read. Whether there is
-- a buffer now.
unfoldable pub ensure_buffer : ℕ → Bool → Fetcher → Bool × Fetcher
ensure_buffer max_write malloc_ok f = elim f.read_buff [
  | some buf ↦ (true, f)
  | none ↦
      let size = wanted_size max_write f.conf_buff_size in
      if malloc_ok
      then (true, record f { buff_size = size; read_buff = some (replicate size 0) })
      else (false, record f { buff_size = size })
]

abbrev pub can_start : FetcherState → Bool
can_start init = true
can_start failed = true
can_start _ = false

-- `mNused - mReadOff`
abbrev pub left_over : Fetcher → ℕ
left_over f = sub_size f.nused f.read_off

-- The first byte to ask for, and how many bytes are missing.
abbrev pub resume_offset : Fetcher → ℤ
resume_offset f = f.offset +ℤ pos (left_over f) +ℤ pos f.bytes_done

abbrev pub missing : Fetcher → ℤ
missing f = f.len -ℤ pos (left_over f) -ℤ pos f.bytes_done

-- `bytes=first-last`, or `bytes=first-`.
abbrev pub range_text : ℤ → ℤ → Bytes
range_text first len =
    if ltb_ℤ len (pos 0)
    then codes "bytes=" ++ (decimal_ℤ first ++ codes "-")
    else codes "bytes=" ++ (decimal_ℤ first ++ (codes "-" ++ decimal_ℤ (first +ℤ len -ℤ pos 1)))

abbrev pub wants_range : Fetcher → Bool
wants_range f = ltb_ℤ (pos 0) (f.offset +ℤ pos f.bytes_done) || not (ltb_ℤ f.len (pos 0))

-- The Host header and the Range header, behind those that are there.
unfoldable pub request_headers : Fetcher → HeaderContent
request_headers f =
    let h = add f.headers host f.host in
    if wants_range f then add h range (range_text (resume_offset f) (missing f)) else h

-- The handle is in the multi handle, and the unsigned headers are in place.
unfoldable pub attach : Fetcher → ℕ → Fetcher
unfolding request_headers
attach f h = record f { curl = handle h; parent = true; headers = request_headers f }

abbrev pub go_on : Fetcher → Result HeaderContent → Result (Unit {0}) × Fetcher
go_on f (ok headers) =
    (ok tt, record f { headers = headers; http_headers = some headers; state = running })
go_on f (throw e) = (throw e, f)
go_on f fault = (fault, f)

module _ (crypto : Crypto) (scan : UrlParser) where
  -- The headers with the date and the signature.
  unfoldable pub sign_headers : Fetcher → Bytes → Result HeaderContent
  sign_headers f timebuf = qs_parse_url scan (some f.url) >>= λ u.
      signature crypto f.headers (resource (some f.bucket) u) f.cred get_data none timebuf

  -- `start` once there is a buffer: the test of the state, and what follows.
  unfoldable pub begin : Answers → Fetcher → Result (Unit {0}) × Fetcher
  begin a f =
      if can_start f.state
      then elim a.easy_handle [
        | none ↦ (throw network, f)
        | some h ↦ go_on (attach f h) (sign_headers (attach f h) a.timebuf)
      ]
      else (throw qingstor, f)

  -- `start`: what it returns or throws, and the object as it is then.
  unfoldable pub start : ℕ → Answers → Fetcher → Result (Unit {0}) × Fetcher
  unfolding begin
  start max_write a f =
      let (allotted, f₁) = ensure_buffer max_write a.malloc_ok f in
      if allotted then begin a f₁ else (throw out_of_memory, f₁)
