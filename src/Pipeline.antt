-- ===== src/Pipeline.antt =====
-- `DownloadPipeline` (src/DownloadPipeline.cpp and .h) and `transferData` of src/QingStorReader.cpp:
-- the fetchers of a reader, of which the first few are active.
pub mod Launch
pub mod Spans
pub mod Order
pub mod End
pub mod Bounds
pub mod Content
pub mod Download
pub mod Throws
pub mod Stuck
pub mod Refused
mod Tests
use qing_stor_c_sdk.Prelude.{
  ℕ, Bool, true, false, List, [], ◌∷◌, ◌++◌, map, Bytes, length, is_empty, ltb, ◌==◌, if◌then◌else◌,
  Option, none, some,
}
use qing_stor_c_sdk.Prelude.Int.{ℤ, pos, ltb_ℤ}
use qing_stor_c_sdk.Errors.{Result, ok, throw, fault, ◌>>=◌, network, end_of_stream}
use qing_stor_c_sdk.Common.Signature.{Crypto}
use qing_stor_c_sdk.Common.Url.{UrlParser}
use qing_stor_c_sdk.Fetcher.{
  Fetcher, Release, FetcherState, init, running, failed, done, Handle, indeterminate, null, handle,
  Got, CurlCode, writer_callback, get, handle_result,
}
use qing_stor_c_sdk.Fetcher.Start.{Answers, start}

-- The two lists and `mNConnections`.
pub record Pipeline : Type 0 where
  pub active : List Fetcher
  pub pending : List Fetcher
  pub connections : ℤ

-- What happens around one round of `read`: how a start of a fetcher is answered, what curl delivers
-- while `get` lifts a pause, whether `curl_multi_wait` and `curl_multi_perform` succeed, the chunks
-- they deliver (by the easy handle), and the messages that are read then.
pub record Round : Type 0 where
  pub answers : Fetcher → Answers
  pub resumed : List (List Bytes)
  pub wait_ok : Bool
  pub perform_ok : Bool
  pub chunks : List (ℕ × Bytes)
  pub messages : List (ℕ × (CurlCode × Option ℕ))

abbrev pub Outcome : Type 0 → Type 0
Outcome V = Result V × Pipeline

abbrev pub is_handle : ℕ → Handle → Bool
is_handle h (handle k) = h == k
is_handle h _ = false

-- curl writes to the fetcher that has the handle.
abbrev pub deliver_chunk : ℕ → Bytes → List Fetcher → List Fetcher
deliver_chunk h c [] = []
deliver_chunk h c (f ∷ fs) =
    let rest = deliver_chunk h c fs in
    if is_handle h f.curl then (writer_callback c f).1 ∷ fs else f ∷ rest

abbrev pub deliver_chunks : List (ℕ × Bytes) → List Fetcher → List Fetcher
deliver_chunks [] fs = fs
deliver_chunks ((h, c) ∷ cs) fs = deliver_chunks cs (deliver_chunk h c fs)

-- A step on the active fetchers: how it ends, and the fetchers as they are then.
abbrev pub Steps : Type 0
Steps = Result (Unit {0}) × List Fetcher

-- A message goes to the first active fetcher with its handle; with none it is an error.
abbrev pub handled : Result (Fetcher × List Release) → Fetcher → List Fetcher → Steps
handled fault f fs = (fault, f ∷ fs)
handled (throw e) f fs = (throw e, f ∷ fs)
handled (ok r) f fs = (ok tt, r.0 ∷ fs)

abbrev pub behind : Fetcher → Steps → Steps
behind f (r, fs) = (r, f ∷ fs)

abbrev pub handle_message : ℕ → CurlCode → Option ℕ → List Fetcher → Steps
handle_message h res code [] = (throw network, [])
handle_message h res code (f ∷ fs) =
    let rest = handle_message h res code fs in
    if is_handle h f.curl then handled (handle_result res code f) f fs else behind f rest

abbrev pub then_step : Steps → (List Fetcher → Steps) → Steps
then_step (fault, fs) next = (fault, fs)
then_step (throw e, fs) next = (throw e, fs)
then_step (ok u, fs) next = next fs

abbrev pub handle_messages : List (ℕ × (CurlCode × Option ℕ)) → List Fetcher → Steps
handle_messages [] fs = (ok tt, fs)
handle_messages ((h, (res, code)) ∷ ms) fs =
    then_step (handle_message h res code fs) (handle_messages ms)

abbrev pub is_failed : FetcherState → Bool
is_failed failed = true
is_failed _ = false

module _ (crypto : Crypto) (scan : UrlParser) (max_write : ℕ) where
  abbrev pub launched :
      (Result (Unit {0}) × Fetcher)
      → List Fetcher
      → List Fetcher
      → Outcome (Unit {0})
      → ℤ
      → Outcome (Unit {0})
  launched (ok u, f) active pending further n = further
  launched (throw e, f) active pending further n =
      (throw e, record { active = active ++ (f ∷ []); pending = pending; connections = n })
  launched (fault, f) active pending further n =
      (fault, record { active = active ++ (f ∷ []); pending = pending; connections = n })

  -- The loop of `launch`: the next fetcher is active before it is started.
  unfoldable pub launch_from :
      (Fetcher → Answers) → ℤ → List Fetcher → List Fetcher → Outcome (Unit {0})
  launch_from a n active [] = (ok tt, record { active = active; pending = []; connections = n })
  launch_from a n active (f ∷ fs) =
      let started = start crypto scan max_write (a f) f in
      let further = launch_from a n (active ++ (started.1 ∷ [])) fs in
      if ltb_ℤ (pos (length active)) n
      then launched started active fs further n
      else (ok tt, record { active = active; pending = f ∷ fs; connections = n })

  unfoldable pub launch : (Fetcher → Answers) → Pipeline → Outcome (Unit {0})
  launch a p = launch_from a p.connections p.active p.pending

  -- Behind the restart: wait, perform, and the messages. What `curl_multi_perform` delivers is there
  -- also if it fails.
  abbrev pub turn : Round → List Fetcher → Steps
  turn r fs =
      let performed = deliver_chunks r.chunks fs in
      if r.wait_ok
      then if r.perform_ok then handle_messages r.messages performed else (throw network, performed)
      else (throw network, fs)

  -- A first fetcher that failed is started again.
  abbrev pub restart : Round → Fetcher → Result (Unit {0}) × Fetcher
  restart r f =
      if is_failed f.state then start crypto scan max_write (r.answers f) f else (ok tt, f)

  abbrev pub set_active : Pipeline → List Fetcher → Pipeline
  set_active p fs = record p { active = fs }

  abbrev pub after_turn : Pipeline → Steps → Outcome (Unit {0})
  after_turn p (r, fs) = (r, set_active p fs)

  -- The end of a round that got nothing: the pipeline for the next one, if nothing is thrown.
  abbrev pub idle :
      Round → Pipeline → List Fetcher → (Result (Unit {0}) × Fetcher) → Outcome (Unit {0})
  idle r p fs (ok u, f) = after_turn p (turn r (f ∷ fs))
  idle r p fs (throw e, f) = (throw e, set_active p (f ∷ fs))
  idle r p fs (fault, f) = (fault, set_active p (f ∷ fs))

  -- How a round ends: with an answer for the caller, or with the pipeline for the next round.
  pub data Ending : Type 0 where
    returned : Outcome Got → Ending
    continued : Pipeline → Ending

  abbrev pub went_on : Outcome (Unit {0}) → Ending
  went_on (ok u, p) = continued p
  went_on (throw e, p) = returned (throw e, p)
  went_on (fault, p) = returned (fault, p)

  abbrev pub with_front : Round → ℕ → Pipeline → Fetcher → List Fetcher → Ending
  with_front r bufflen p f fs =
      let (got, f') = get r.resumed bufflen f in
      if got.eof
      then continued (set_active p fs)
      else if is_empty got.bytes
      then went_on (idle r p fs (restart r f'))
      else returned (ok got, set_active p (f' ∷ fs))

  -- With no active fetcher everything has been read.
  abbrev pub at_front : Round → ℕ → Pipeline → List Fetcher → Ending
  at_front r bufflen p [] = returned (ok (record { bytes = []; eof = true }), p)
  at_front r bufflen p (f ∷ fs) = with_front r bufflen p f fs

  abbrev pub behind_launch : Round → ℕ → Outcome (Unit {0}) → Ending
  behind_launch r bufflen (throw e, p) = returned (throw e, p)
  behind_launch r bufflen (fault, p) = returned (fault, p)
  behind_launch r bufflen (ok u, p) = at_front r bufflen p p.active

  unfoldable pub round : Round → ℕ → Pipeline → Ending
  unfolding launch
  round r bufflen p = behind_launch r bufflen (launch r.answers p)

  abbrev pub resumed_by : Ending → (Pipeline → Option (Outcome Got)) → Option (Outcome Got)
  resumed_by (returned o) next = some o
  resumed_by (continued p) next = next p

  -- `read`, over the rounds; `none` when they are used up and it still waits.
  unfoldable pub read : List Round → ℕ → Pipeline → Option (Outcome Got)
  unfolding round
  read [] bufflen p = none
  read (r ∷ rs) bufflen p = resumed_by (round r bufflen p) (read rs bufflen)

  abbrev pub end_checked : Outcome Got → Outcome Bytes
  end_checked (ok got, p) = if got.eof then (throw end_of_stream, p) else (ok got.bytes, p)
  end_checked (throw e, p) = (throw e, p)
  end_checked (fault, p) = (fault, p)

  -- `QingStorReader::transferData`
  unfoldable pub transfer_data : List Round → ℕ → Pipeline → Option (Outcome Bytes)
  unfolding read
  transfer_data rs buffsize p = elim (read rs buffsize p) [
    | none ↦ none
    | some o ↦ some (end_checked o)
  ]
