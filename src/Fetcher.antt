-- ===== src/Fetcher.antt =====
-- `HTTPFetcher` (src/HTTPFetcher.h and .cpp): the download of one byte range into a buffer. curl
-- calls the write callback, and reports the result of the transfer.
pub mod Start
pub mod Stream
pub mod Resume
pub mod Life
pub mod Throws
pub mod ErrorBody
pub mod Content
mod Tests
use qing_stor_c_sdk.Prelude.{
  ℕ, ◌+◌, ◌-◌, ◌%◌, ◌^◌, Bool, true, false, List, [], ◌∷◌, ◌++◌, Bytes, length, take, drop, ltb,
  ◌==◌, ◌&&◌, not, if◌then◌else◌, Option, none, some,
}
use qing_stor_c_sdk.Prelude.Int.{ℤ}
use qing_stor_c_sdk.Errors.{Result, ok, throw, fault, ◌>>=◌, qingstor, network}
use qing_stor_c_sdk.Common.Header.{Credential, HeaderContent}

pub data FetcherState : Type 0 where
  init running failed done : FetcherState

-- A pointer member. The constructor of the class does not set `mCurl`.
pub data Handle : Type 0 where
  indeterminate null : Handle
  handle : ℕ → Handle

-- The members; `mReadBuff` is the whole allotted array, `parent` says whether `mParent` is set, and
-- `http_headers` is the `curl_slist`.
pub record Fetcher : Type 0 where
  pub state : FetcherState
  pub curl : Handle
  pub paused : Bool
  pub http_headers : Option HeaderContent
  pub parent : Bool
  pub url : Bytes
  pub bucket : Bytes
  pub host : Bytes
  pub cred : Credential
  pub conf_buff_size : ℤ
  pub offset : ℤ
  pub len : ℤ
  pub bytes_done : ℕ
  pub headers : HeaderContent
  pub read_buff : Option Bytes
  pub buff_size : ℕ
  pub nused : ℕ
  pub read_off : ℕ
  pub nfailures : ℕ

-- `HTTPFetcher(url, host, bucket, cred, buffsize, offset, len)`
abbrev pub new_fetcher : Bytes → Bytes → Bytes → Credential → ℤ → ℤ → ℤ → Fetcher
new_fetcher url host bucket cred buffsize offset len = record {
  state = init;
  curl = indeterminate;
  paused = false;
  http_headers = none;
  parent = false;
  url = url;
  bucket = bucket;
  host = host;
  cred = cred;
  conf_buff_size = buffsize;
  offset = offset;
  len = len;
  bytes_done = 0;
  headers = [];
  read_buff = none;
  buff_size = 0;
  nused = 0;
  read_off = 0;
  nfailures = 0;
}

-- `size_t` subtraction
abbrev pub sub_size : ℕ → ℕ → ℕ
sub_size a b = (a + 2 ^ 64 - b) % 2 ^ 64

-- `memcpy` and `memmove` into an array, at an offset.
abbrev pub copy_in : Bytes → ℕ → Bytes → Bytes
copy_in buf off src = take off buf ++ (src ++ drop (off + length src) buf)

abbrev pub slice : Bytes → ℕ → ℕ → Bytes
slice buf off n = take n (drop off buf)

abbrev pub buffer : Fetcher → Bytes
buffer f = elim f.read_buff [ none ↦ [] | some buf ↦ buf ]

-- An emptied buffer is used from its start again.
abbrev rewind : Fetcher → Fetcher
rewind f = if f.nused == f.read_off then record f { nused = 0; read_off = 0 } else f

-- The valid bytes move to the front.
abbrev shift : Fetcher → Fetcher
shift f =
    if ltb 0 f.read_off
    then record f {
      read_buff = some (copy_in (buffer f) 0 (slice (buffer f) f.read_off (f.nused - f.read_off)));
      nused = f.nused - f.read_off;
      read_off = 0;
    }
    else f

abbrev store : Fetcher → Bytes → Fetcher
store f contents = record f {
  read_buff = some (copy_in (buffer f) f.nused contents);
  nused = f.nused + length contents;
}

-- What the callback returns: the number of bytes, or CURL_WRITEFUNC_PAUSE.
pub data WriteReply : Type 0 where
  taken : ℕ → WriteReply
  pause : WriteReply

abbrev fits : Fetcher → Bytes → Bool
fits f contents = not (ltb (sub_size f.buff_size f.nused) (length contents))

abbrev store_or_pause : Fetcher → Bytes → WriteReply × Fetcher
store_or_pause f contents =
    if fits f contents
    then (taken (length contents), store f contents)
    else (pause, record f { paused = true })

-- `WriterCallback`; `contents` has `size * nmemb` bytes.
unfoldable pub writer_callback : Bytes → Fetcher → WriteReply × Fetcher
writer_callback contents f =
    let f₁ = rewind f in
    if fits f₁ contents
    then (taken (length contents), store f₁ contents)
    else store_or_pause (shift f₁) contents

-- The calls that curl makes while it resumes a transfer.
unfoldable pub deliver : List Bytes → Fetcher → Fetcher
deliver [] f = f
deliver (c ∷ cs) f = deliver cs (writer_callback c f).1

-- What `get` returns: the bytes copied to the caller, and whether it reports the end.
pub record Got : Type 0 where
  pub bytes : Bytes
  pub eof : Bool

abbrev pub at_end : FetcherState → Bool
at_end done = true
at_end _ = false

-- The bytes to hand out: what is there, up to `bufflen`.
abbrev pub avail : Fetcher → ℕ → ℕ
avail f bufflen = let n = f.nused - f.read_off in if ltb bufflen n then bufflen else n

-- The first branch of `get`: there are bytes in the buffer.
unfoldable pub get_available : ℕ → Fetcher → Option (Got × Fetcher)
get_available bufflen f =
    if ltb f.read_off f.nused
    then some (
      record { bytes = slice (buffer f) f.read_off (avail f bufflen); eof = false },
      record f {
        read_off = f.read_off + avail f bufflen;
        bytes_done = f.bytes_done + avail f bufflen;
      },
    )
    else none

abbrev pub nothing : Fetcher → Got × Fetcher
nothing f = (record { bytes = []; eof = at_end f.state }, f)

-- `get`. Each element of `resumed` is what curl delivers when a pause is lifted once more; nothing
-- comes when the list is used up.
unfoldable pub get : List (List Bytes) → ℕ → Fetcher → Got × Fetcher
get [] bufflen f = elim (get_available bufflen f) [
  | some r ↦ r
  | none ↦ nothing (record f { paused = false })
]
get (r ∷ rs) bufflen f =
    let again = get rs bufflen (deliver r (record f { paused = false })) in
    elim (get_available bufflen f) [ some got ↦ got | none ↦ if f.paused then again else nothing f ]

-- The calls into curl that release what a transfer holds.
pub data Release : Type 0 where
  multi_remove easy_cleanup : ℕ → Release
  slist_free : Release

abbrev freed : Fetcher → List Release
freed f = elim f.http_headers [ none ↦ [] | some l ↦ slist_free ∷ [] ]

-- `cleanup`: a handle that was never set is read.
unfoldable pub cleanup : Fetcher → Result (Fetcher × List Release)
cleanup f = elim f.curl [
  | indeterminate ↦ fault
  | null ↦ ok (record f { http_headers = none }, freed f)
  | handle h ↦ ok (
    record f { curl = null; parent = false; http_headers = none },
    (if f.parent then multi_remove h ∷ easy_cleanup h ∷ [] else easy_cleanup h ∷ []) ++ freed f,
  )
]

-- `fail`
unfoldable pub fail : Fetcher → Result (Fetcher × List Release)
unfolding cleanup
fail f = cleanup f >>= λ r. ok (record (r.0) { state = failed; nfailures = f.nfailures + 1 }, r.1)

-- `done`
unfoldable pub finish : Fetcher → Result (Fetcher × List Release)
unfolding cleanup
finish f = cleanup f >>= λ r. ok (record (r.0) { state = done }, r.1)

-- The destructor: the buffer is freed behind `cleanup`.
unfoldable pub destroy : Fetcher → Result (List Release)
unfolding cleanup
destroy f = cleanup f >>= λ r. ok r.1

-- `CURLcode`
pub data CurlCode : Type 0 where
  curle_ok operation_timedout : CurlCode
  curle_error : ℕ → CurlCode

-- `respcode` if `curl_easy_getinfo` set it.
abbrev by_response_code : Option ℕ → Fetcher → Result (Fetcher × List Release)
by_response_code none f = fault
by_response_code (some code) f =
    if code == 0
    then throw network
    else if not (code == 200) && not (code == 206)
    then fail f
    else finish f

-- `handleResult`. A response code that could not be read is used as it is: indeterminate.
unfoldable pub handle_result : CurlCode → Option ℕ → Fetcher → Result (Fetcher × List Release)
unfolding fail finish
handle_result res respcode f = elim f.curl [
  | null ↦ throw qingstor
  | indeterminate ↦ fault
  | handle h ↦ elim res [
    | curle_ok ↦ by_response_code respcode f
    | operation_timedout ↦ fail f
    | curle_error n ↦ fail f
  ]
]
