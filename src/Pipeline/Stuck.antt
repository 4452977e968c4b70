-- ===== src/Pipeline/Stuck.antt =====
-- A first start that throws (src/DownloadPipeline.cpp): `launch` has made the fetcher active, and
-- `read` starts only fetchers that have failed.
use qing_stor_c_sdk.Prelude.{
  ℕ, ◌≡◌, refl, sym, Bool, true, false, Bool-cases, inl, inr, List, [], ◌∷◌, Bytes, ltb, is_empty,
  if◌then◌else◌, Option, none, some,
}
use mathlib.Core.Path.{subst}
use qing_stor_c_sdk.Prelude.Int.{ℤ}
use qing_stor_c_sdk.Errors.{Result, ok, throw, fault}
use qing_stor_c_sdk.Common.Signature.{Crypto}
use qing_stor_c_sdk.Common.Url.{UrlParser}
use qing_stor_c_sdk.Fetcher.{
  Fetcher, init, Handle, indeterminate, null, handle, Got, CurlCode, get, get_available,
}
use qing_stor_c_sdk.Fetcher.Start.{Answers}
use qing_stor_c_sdk.Fetcher.Content.{has_handle}
use qing_stor_c_sdk.Pipeline.Launch.{launch_from-front}
use qing_stor_c_sdk.Pipeline.{
  Pipeline, Steps, Round, Ending, returned, continued, is_handle, deliver_chunk, deliver_chunks,
  handle_message, handle_messages, then_step, launch_from, launch, turn, restart, idle, went_on,
  at_front, behind_launch, round, resumed_by, read,
}

-- A fetcher without a handle that is neither running nor failed, and has nothing to read.
pub record IsStuck (f : Fetcher) : Type 0 where
  pub idle : f.state ≡ init
  pub no_handle : has_handle f.curl ≡ false
  pub not_paused : f.paused ≡ false
  pub empty : ltb f.read_off f.nused ≡ false

abbrev pub FrontStuck : List Fetcher → Type 0
FrontStuck [] = ⊥
FrontStuck (f ∷ fs) = IsStuck f

not_handle : (h : ℕ) (c : Handle) → has_handle c ≡ false → is_handle h c ≡ false
not_handle h indeterminate e = refl
not_handle h null e = refl
not_handle h (handle k) e = absurd cc

deliver_chunk-FrontStuck :
    (h : ℕ) (c : Bytes) (fs : List Fetcher) → FrontStuck fs → FrontStuck (deliver_chunk h c fs)
deliver_chunk-FrontStuck h c [] s = s
deliver_chunk-FrontStuck h c (f ∷ fs) s = rw (not_handle h f.curl s.no_handle) s

deliver_chunks-FrontStuck :
    (cs : List (ℕ × Bytes)) (fs : List Fetcher) → FrontStuck fs → FrontStuck (deliver_chunks cs fs)
deliver_chunks-FrontStuck [] fs s = s
deliver_chunks-FrontStuck ((h, c) ∷ cs) fs s =
    deliver_chunks-FrontStuck cs (deliver_chunk h c fs) (deliver_chunk-FrontStuck h c fs s)

handle_message-FrontStuck :
    (h : ℕ) (res : CurlCode) (code : Option ℕ) (fs : List Fetcher)
    → FrontStuck fs
    → FrontStuck (handle_message h res code fs).1
handle_message-FrontStuck h res code [] s = s
handle_message-FrontStuck h res code (f ∷ fs) s = rw (not_handle h f.curl s.no_handle) s

then_step-FrontStuck :
    (d : Steps) (next : List Fetcher → Steps)
    → FrontStuck d.1
    → ((fs : List Fetcher) → FrontStuck fs → FrontStuck (next fs).1)
    → FrontStuck (then_step d next).1
then_step-FrontStuck (fault, fs) next s h = s
then_step-FrontStuck (throw e, fs) next s h = s
then_step-FrontStuck (ok u, fs) next s h = h fs s

handle_messages-FrontStuck :
    (ms : List (ℕ × (CurlCode × Option ℕ))) (fs : List Fetcher)
    → FrontStuck fs
    → FrontStuck (handle_messages ms fs).1
handle_messages-FrontStuck [] fs s = s
handle_messages-FrontStuck ((h, (res, code)) ∷ ms) fs s =
    then_step-FrontStuck (handle_message h res code fs) (handle_messages ms)
      (handle_message-FrontStuck h res code fs s) (handle_messages-FrontStuck ms)

-- A call of `get` on such a fetcher gives nothing, and not the end.
record StuckGot (out : Got × Fetcher) : Type 0 where
  nothing : is_empty out.0.bytes ≡ true
  going_on : out.0.eof ≡ false
  same : IsStuck out.1

second : (b : Bool) (x y : Got × Fetcher) → b ≡ false → StuckGot y → StuckGot (if b then x else y)
second true x y e s = absurd cc
second false x y e s = s

get-StuckGot : (rs : List (List Bytes)) (n : ℕ) (f : Fetcher) → IsStuck f → StuckGot (get rs n f)
unfolding get get_available
get-StuckGot [] n f s =
    rw (s.empty, get, get_available)
      (record {
        nothing = refl;
        going_on = rw s.idle refl;
        same = record {
          idle = s.idle;
          no_handle = s.no_handle;
          not_paused = refl;
          empty = s.empty;
        };
      })
get-StuckGot (r ∷ rs) n f s =
    rw (s.empty, get, get_available)
      (second f.paused _ _ s.not_paused
        (record { nothing = refl; going_on = rw s.idle refl; same = s }))

module _ (crypto : Crypto) (scan : UrlParser) (max_write : ℕ) where
  launch_from-FrontStuck :
      (a : Fetcher → Answers) (n : ℤ) (active fs : List Fetcher)
      → FrontStuck active
      → FrontStuck (launch_from crypto scan max_write a n active fs).1.active
  launch_from-FrontStuck a n [] fs s = absurd s
  launch_from-FrontStuck a n (f ∷ active) fs s =
      let (rest, e) = launch_from-front crypto scan max_write a n f active fs in
      subst FrontStuck (sym e) s

  turn-FrontStuck :
      (r : Round) (fs : List Fetcher)
      → FrontStuck fs
      → FrontStuck (turn crypto scan max_write r fs).1
  turn-FrontStuck r fs s =
      let t = deliver_chunks-FrontStuck r.chunks fs s in
      elim (Bool-cases r.wait_ok) [
        | inr e ↦ rw e s
        | inl e ↦ elim (Bool-cases r.perform_ok) [
          | inr e' ↦ rw (e, e') t
          | inl e' ↦ rw (e, e') (handle_messages-FrontStuck r.messages _ t)
        ]
      ]

  restart-IsStuck :
      (r : Round) (f : Fetcher) → IsStuck f → restart crypto scan max_write r f ≡ (ok tt, f)
  restart-IsStuck r f s = rw s.idle refl

  -- Where a round leaves such a fetcher: still at the front, and with nothing for the caller.
  abbrev EndStuck : Ending crypto scan max_write → Type 0
  EndStuck (continued p) = FrontStuck p.active
  EndStuck (returned (ok got, p)) = ⊥
  EndStuck (returned (throw e, p)) = FrontStuck p.active
  EndStuck (returned (fault, p)) = FrontStuck p.active

  went_on-EndStuck :
      (o : Result (Unit {0}) × Pipeline)
      → FrontStuck o.1.active
      → EndStuck (went_on crypto scan max_write o)
  went_on-EndStuck (ok u, p) s = s
  went_on-EndStuck (throw e, p) s = s
  went_on-EndStuck (fault, p) s = s

  idle-FrontStuck :
      (r : Round) (p : Pipeline) (fs : List Fetcher) (s : Result (Unit {0}) × Fetcher)
      → IsStuck s.1
      → FrontStuck (idle crypto scan max_write r p fs s).1.active
  idle-FrontStuck r p fs (ok u, f) s = turn-FrontStuck r (f ∷ fs) s
  idle-FrontStuck r p fs (throw e, f) s = s
  idle-FrontStuck r p fs (fault, f) s = s

  front_got :
      (eof none_held : Bool) (x y z : Ending crypto scan max_write)
      → eof ≡ false
      → none_held ≡ true
      → EndStuck y
      → EndStuck (if eof then x else if none_held then y else z)
  front_got true none_held x y z e t s = absurd cc
  front_got false true x y z e t s = s
  front_got false false x y z e t s = absurd cc

  at_front-EndStuck :
      (r : Round) (n : ℕ) (p : Pipeline) (fs : List Fetcher)
      → FrontStuck fs
      → EndStuck (at_front crypto scan max_write r n p fs)
  at_front-EndStuck r n p [] s = absurd s
  at_front-EndStuck r n p (f ∷ fs) s =
      let out = get r.resumed n f in
      let g = get-StuckGot r.resumed n f s in
      front_got out.0.eof (is_empty out.0.bytes) _ _ _ g.going_on g.nothing (
        went_on-EndStuck _ (
          idle-FrontStuck r p fs (restart crypto scan max_write r out.1)
            (rw (restart-IsStuck r out.1 g.same) g.same)))

  behind_launch-EndStuck :
      (r : Round) (n : ℕ) (o : Result (Unit {0}) × Pipeline)
      → FrontStuck o.1.active
      → EndStuck (behind_launch crypto scan max_write r n o)
  behind_launch-EndStuck r n (ok u, p) s = at_front-EndStuck r n p p.active s
  behind_launch-EndStuck r n (throw e, p) s = s
  behind_launch-EndStuck r n (fault, p) s = s

  round-EndStuck :
      (r : Round) (n : ℕ) (p : Pipeline)
      → FrontStuck p.active
      → EndStuck (round crypto scan max_write r n p)
  unfolding round launch
  round-EndStuck r n p s =
      behind_launch-EndStuck r n _
        (launch_from-FrontStuck r.answers p.connections p.active p.pending s)

  -- A `read` that hands out nothing and reports no end.
  abbrev pub GetsNothing : Option (Result Got × Pipeline) → Type 0
  GetsNothing none = Unit
  GetsNothing (some (ok got, p)) = ⊥
  GetsNothing (some (throw e, p)) = FrontStuck p.active
  GetsNothing (some (fault, p)) = FrontStuck p.active

  resumed-GetsNothing :
      (end : Ending crypto scan max_write) (next : Pipeline → Option (Result Got × Pipeline))
      → EndStuck end
      → ((q : Pipeline) → FrontStuck q.active → GetsNothing (next q))
      → GetsNothing (resumed_by crypto scan max_write end next)
  resumed-GetsNothing (continued q) next s h = h q s
  resumed-GetsNothing (returned (ok got, q)) next s h = absurd s
  resumed-GetsNothing (returned (throw e, q)) next s h = s
  resumed-GetsNothing (returned (fault, q)) next s h = s

  pub read-GetsNothing :
      (rs : List Round) (n : ℕ) (p : Pipeline)
      → FrontStuck p.active
      → GetsNothing (read crypto scan max_write rs n p)
  unfolding read
  read-GetsNothing [] n p s = tt
  read-GetsNothing (r ∷ rs) n p s =
      resumed-GetsNothing _ _ (round-EndStuck r n p s) (read-GetsNothing rs n)
