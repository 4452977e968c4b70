-- ===== src/Pipeline/Throws.antt =====
-- What `read` of src/DownloadPipeline.cpp throws: never QingStorEndOfStream, which is left to
-- `transferData` of src/QingStorReader.cpp.
use qing_stor_c_sdk.Prelude.{
  ℕ, refl, Bool, true, false, List, [], ◌∷◌, ◌++◌, length, is_empty, if◌then◌else◌, Option, none,
  some,
}
use qing_stor_c_sdk.Prelude.Int.{ℤ, pos, ltb_ℤ}
use qing_stor_c_sdk.Errors.{Result, ok, throw, fault}
use qing_stor_c_sdk.Common.Signature.{Crypto}
use qing_stor_c_sdk.Common.Url.{UrlParser}
use qing_stor_c_sdk.Fetcher.{Release, Fetcher, Got, CurlCode, get}
use qing_stor_c_sdk.Fetcher.Start.{Answers, start}
use qing_stor_c_sdk.Pipeline.{
  Steps, handled, then_step, Pipeline, Round, Ending, returned, continued, handle_message,
  handle_messages, is_handle, deliver_chunks, turn, restart, idle, is_failed, went_on, at_front,
  behind_launch, launched, launch_from, launch, round, resumed_by, read,
}
use qing_stor_c_sdk.Fetcher.Throws.{Goes, handle_result-Goes, first_if, start-Goes}

if-Goes {ℓ} : {V : Type ℓ} (b : Bool) (x y : Result V) → Goes x → Goes y → Goes (if b then x else y)
if-Goes true x y p q = p
if-Goes false x y p q = q

picked-Goes : (b : Bool) (x y : Steps) → Goes x.0 → Goes y.0 → Goes (if b then x else y).0
picked-Goes true x y p q = p
picked-Goes false x y p q = q

handled-Goes :
    (r : Result (Fetcher × List Release)) (f : Fetcher) (fs : List Fetcher)
    → Goes r
    → Goes (handled r f fs).0
handled-Goes fault f fs g = tt
handled-Goes (throw e) f fs g = g
handled-Goes (ok x) f fs g = tt

handle_message-Goes :
    (h : ℕ) (res : CurlCode) (code : Option ℕ) (fs : List Fetcher)
    → Goes (handle_message h res code fs).0
handle_message-Goes h res code [] = refl
handle_message-Goes h res code (f ∷ fs) =
    picked-Goes (is_handle h f.curl) _ _ (handled-Goes _ f fs (handle_result-Goes res code f))
      (handle_message-Goes h res code fs)

then_step-Goes :
    (d : Steps) (next : List Fetcher → Steps)
    → Goes d.0
    → ((l : List Fetcher) → Goes (next l).0)
    → Goes (then_step d next).0
then_step-Goes (fault, l) next g h = tt
then_step-Goes (throw e, l) next g h = g
then_step-Goes (ok u, l) next g h = h l

handle_messages-Goes :
    (ms : List (ℕ × (CurlCode × Option ℕ))) (fs : List Fetcher) → Goes (handle_messages ms fs).0
handle_messages-Goes [] fs = tt
handle_messages-Goes ((h, (res, code)) ∷ ms) fs =
    then_step-Goes (handle_message h res code fs) (handle_messages ms)
      (handle_message-Goes h res code fs) (handle_messages-Goes ms)

module _ (crypto : Crypto) (scan : UrlParser) (max_write : ℕ) where
  launched-Goes :
      (started : Result (Unit {0}) × Fetcher) (active pending : List Fetcher)
      (further : Result (Unit {0}) × Pipeline) (n : ℤ)
      → Goes started.0
      → Goes further.0
      → Goes (launched crypto scan max_write started active pending further n).0
  launched-Goes (fault, f) active pending further n p q = tt
  launched-Goes (throw e, f) active pending further n p q = p
  launched-Goes (ok u, f) active pending further n p q = q

  pick :
      (b : Bool) (x y : Result (Unit {0}) × Pipeline)
      → Goes x.0
      → Goes y.0
      → Goes (if b then x else y).0
  pick true x y p q = p
  pick false x y p q = q

  launch_from-Goes :
      (a : Fetcher → Answers) (n : ℤ) (active fs : List Fetcher)
      → Goes (launch_from crypto scan max_write a n active fs).0
  unfolding launch_from
  launch_from-Goes a n active [] = tt
  launch_from-Goes a n active (f ∷ fs) =
      let started = start crypto scan max_write (a f) f in
      pick (ltb_ℤ (pos (length active)) n) _ _
        (launched-Goes started active fs _ n (start-Goes crypto scan max_write (a f) f)
          (launch_from-Goes a n (active ++ (started.1 ∷ [])) fs))
        tt

  turn-Goes : (r : Round) (fs : List Fetcher) → Goes (turn crypto scan max_write r fs).0
  turn-Goes r fs =
      picked-Goes r.wait_ok _ _
        (picked-Goes r.perform_ok _ _ (handle_messages-Goes r.messages (deliver_chunks r.chunks fs))
          refl)
        refl

  idle-Goes :
      (r : Round) (p : Pipeline) (fs : List Fetcher) (s : Result (Unit {0}) × Fetcher)
      → Goes s.0
      → Goes (idle crypto scan max_write r p fs s).0
  idle-Goes r p fs (fault, f) g = tt
  idle-Goes r p fs (throw e, f) g = g
  idle-Goes r p fs (ok u, f) g = turn-Goes r (f ∷ fs)

  restart-Goes : (r : Round) (f : Fetcher) → Goes (restart crypto scan max_write r f).0
  restart-Goes r f =
      first_if crypto scan max_write (is_failed f.state) _ _
        (start-Goes crypto scan max_write (r.answers f) f) tt

  -- What a round throws, if it ends `read`.
  abbrev EndGoes : Ending crypto scan max_write → Type 0
  EndGoes (continued p) = Unit
  EndGoes (returned o) = Goes o.0

  went_on-Goes :
      (o : Result (Unit {0}) × Pipeline) → Goes o.0 → EndGoes (went_on crypto scan max_write o)
  went_on-Goes (fault, p) g = tt
  went_on-Goes (throw e, p) g = g
  went_on-Goes (ok u, p) g = tt

  ended :
      (b : Bool) (x y : Ending crypto scan max_write)
      → EndGoes x
      → EndGoes y
      → EndGoes (if b then x else y)
  ended true x y p q = p
  ended false x y p q = q

  at_front-Goes :
      (r : Round) (n : ℕ) (p : Pipeline) (fs : List Fetcher)
      → EndGoes (at_front crypto scan max_write r n p fs)
  at_front-Goes r n p [] = tt
  at_front-Goes r n p (f ∷ fs) =
      let (got, f') = get r.resumed n f in
      ended got.eof _ _ tt (
        ended (is_empty got.bytes) _ _
          (went_on-Goes _
            (idle-Goes r p fs (restart crypto scan max_write r f') (restart-Goes r f')))
          tt)

  behind_launch-Goes :
      (r : Round) (n : ℕ) (o : Result (Unit {0}) × Pipeline)
      → Goes o.0
      → EndGoes (behind_launch crypto scan max_write r n o)
  behind_launch-Goes r n (fault, p) g = tt
  behind_launch-Goes r n (throw e, p) g = g
  behind_launch-Goes r n (ok u, p) g = at_front-Goes r n p p.active

  round-Goes : (r : Round) (n : ℕ) (p : Pipeline) → EndGoes (round crypto scan max_write r n p)
  unfolding round launch
  round-Goes r n p =
      behind_launch-Goes r n _ (launch_from-Goes r.answers p.connections p.active p.pending)

  abbrev pub GoesIf : Option (Result Got × Pipeline) → Type 0
  GoesIf none = Unit
  GoesIf (some o) = Goes o.0

  then_read :
      (rs : List Round) (n : ℕ) (end : Ending crypto scan max_write)
      → EndGoes end
      → ((q : Pipeline) → GoesIf (read crypto scan max_write rs n q))
      → GoesIf (resumed_by crypto scan max_write end (read crypto scan max_write rs n))
  then_read rs n (returned o) h later = h
  then_read rs n (continued q) h later = later q

  pub read-Goes :
      (rs : List Round) (n : ℕ) (p : Pipeline) → GoesIf (read crypto scan max_write rs n p)
  unfolding read
  read-Goes [] n p = tt
  read-Goes (r ∷ rs) n p =
      then_read rs n (round crypto scan max_write r n p) (round-Goes r n p) (read-Goes rs n)
