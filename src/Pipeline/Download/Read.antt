-- ===== src/Pipeline/Download/Read.antt =====
-- The rounds of `read` (src/DownloadPipeline.cpp) and `transferData` (src/QingStorReader.cpp), with
-- curl that delivers the object.
use qing_stor_c_sdk.Prelude.{
  ℕ, ◌^◌, ◌<◌, ◌≡◌, refl, ap, ◌∙◌, inl, inr, List, [], ◌∷◌, Bytes, Option, none, some, length,
  arith,
}
use qing_stor_c_sdk.Prelude.Int.{pos, pos_part, neg_part, ◌≤ℤ◌}
use qing_stor_c_sdk.Errors.{Result, ok, throw, fault}
use qing_stor_c_sdk.Common.Signature.{Crypto}
use qing_stor_c_sdk.Common.Url.{UrlParser}
use qing_stor_c_sdk.Fetcher.{Fetcher, Got}
use qing_stor_c_sdk.Pipeline.{
  Pipeline, Round, Ending, returned, continued, at_front, behind_launch, launch, round, resumed_by,
  read,
}
use qing_stor_c_sdk.Pipeline.Launch.{Launched, launch-Launched}
use qing_stor_c_sdk.Pipeline.Order.{Ends, round-Ends}
use qing_stor_c_sdk.Pipeline.Content.{AllKept}
use qing_stor_c_sdk.Pipeline.Download.{
  IsSoundPipeline, left, Keeps, launch_from-Keeps, HandsOut, EndHandsOut, HandsOut-from,
}
use qing_stor_c_sdk.Pipeline.Download.Front.{FitsFront, FitsLaunched, with_front-HandsOut}

module _ (object : Bytes) (crypto : Crypto) (scan : UrlParser) (max_write : ℕ)
    (small : max_write < 2 ^ 63) where
  at_front-HandsOut :
      (r : Round) (n : ℕ) (p : Pipeline) (active : List Fetcher)
      → IsSoundPipeline object p
      → AllKept object p.active active
      → (active ≡ [] → left object p ≡ [])
      → FitsFront object crypto scan max_write small r n active
      → EndHandsOut object crypto scan max_write small p
          (at_front crypto scan max_write r n p active)
  at_front-HandsOut r n p [] s k none_left h = (s, refl, λ d. none_left refl)
  at_front-HandsOut r n p (f ∷ fs) s k none_left h =
      with_front-HandsOut object crypto scan max_write small r n p f fs s.1 k h

  -- With at least one connection no fetcher is pending while none is active.
  all_handed :
      (p q : Pipeline) (u : Unit {0})
      → pos 1 ≤ℤ p.connections
      → Launched p (ok u, q)
      → q.active ≡ []
      → left object q ≡ []
  all_handed p q u one l e = elim l.saturated [
    | inl wrong ↦ absurd (wrong refl)
    | inr (inl none_pending) ↦ rw (e, none_pending) refl
    | inr (inr full) ↦ absurd (omega (arith, full, one, ap length e))
  ]

  EndHandsOut-from :
      (p q : Pipeline) (end : Ending crypto scan max_write)
      → Keeps object p q
      → EndHandsOut object crypto scan max_write small q end
      → EndHandsOut object crypto scan max_write small p end
  EndHandsOut-from p q (continued x) k h = record { sound = h.sound; same = h.same ∙ k.same }
  EndHandsOut-from p q (returned o) k h = HandsOut-from object crypto scan max_write small p q o k h

  behind_launch-HandsOut :
      (r : Round) (n : ℕ) (p : Pipeline) (out : Result (Unit {0}) × Pipeline)
      → pos 1 ≤ℤ p.connections
      → Launched p out
      → Keeps object p out.1
      → FitsLaunched object crypto scan max_write small r n out
      → EndHandsOut object crypto scan max_write small p
          (behind_launch crypto scan max_write r n out)
  behind_launch-HandsOut r n p (ok u, q) one l k h = EndHandsOut-from p q _ k (
      at_front-HandsOut r n q q.active k.sound (record { sound = k.sound.0; same = refl })
        (all_handed p q u one l) h)
  behind_launch-HandsOut r n p (throw e, q) one l k h = k
  behind_launch-HandsOut r n p (fault, q) one l k h = k

  -- What curl is to deliver in the rounds: each chunk is what comes next for the fetcher that gets
  -- it, and a transfer that is reported as successful has delivered its range.
  abbrev FitsNext : Ending crypto scan max_write → (Pipeline → Type 0) → Type 0
  FitsNext (continued q) next = next q
  FitsNext (returned o) next = Unit

  abbrev pub FitsRounds : List Round → ℕ → Pipeline → Type 0
  FitsRounds [] n p = Unit
  FitsRounds (r ∷ rs) n p =
      FitsLaunched object crypto scan max_write small r n (launch crypto scan max_write r.answers p)
      × FitsNext (round crypto scan max_write r n p) (FitsRounds rs n)

  round-HandsOut :
      (r : Round) (n : ℕ) (p : Pipeline)
      → pos 1 ≤ℤ p.connections
      → IsSoundPipeline object p
      → FitsLaunched object crypto scan max_write small r n
          (launch crypto scan max_write r.answers p)
      → EndHandsOut object crypto scan max_write small p (round crypto scan max_write r n p)
  unfolding round launch
  round-HandsOut r n p one s h =
      behind_launch-HandsOut r n p _ one (launch-Launched crypto scan max_write r.answers p)
        (launch_from-Keeps object crypto scan max_write small r.answers p.connections p.active
          p.pending s.0 s.1)
        h

  abbrev pub ReadHandsOut : Pipeline → Option (Result Got × Pipeline) → Type 0
  ReadHandsOut p none = Unit
  ReadHandsOut p (some o) = HandsOut object crypto scan max_write small p o

  ReadHandsOut-from :
      (p q : Pipeline) (o : Option (Result Got × Pipeline))
      → Keeps object p q
      → ReadHandsOut q o
      → ReadHandsOut p o
  ReadHandsOut-from p q none k h = tt
  ReadHandsOut-from p q (some o) k h = HandsOut-from object crypto scan max_write small p q o k h

  then_read :
      (p : Pipeline) (n : ℕ) (rs : List Round) (end : Ending crypto scan max_write)
      → pos 1 ≤ℤ p.connections
      → Ends crypto scan max_write p end
      → EndHandsOut object crypto scan max_write small p end
      → FitsNext end (FitsRounds rs n)
      → ((q : Pipeline)
          → pos 1 ≤ℤ q.connections
          → IsSoundPipeline object q
          → FitsRounds rs n q
          → ReadHandsOut q (read crypto scan max_write rs n q))
      → ReadHandsOut p (resumed_by crypto scan max_write end (read crypto scan max_write rs n))
  then_read p n rs (returned o) one a h fits later = h
  then_read p n rs (continued q) one a h fits later =
      ReadHandsOut-from p q _ h
        (later q (omega (arith, one, ap pos_part a.kept, ap neg_part a.kept)) h.sound fits)

  -- `read`, over at least one connection and with fetchers that are sound, hands out the object. If
  -- curl delivers to each transfer what the range of its fetcher has next, in pieces and in an order
  -- between the transfers as it likes, and reports a transfer as successful only when it has
  -- delivered all of the range, and CURL_MAX_WRITE_SIZE is below 2 ^ 63, then the bytes that a call
  -- hands out are the next of those that are left of the ranges, in the order of the queue; it
  -- reports the end only when none are left; and a call that throws or is undefined loses none of
  -- them. The fetchers stay sound.
  pub read-HandsOut :
      (rs : List Round) (n : ℕ) (p : Pipeline)
      → pos 1 ≤ℤ p.connections
      → IsSoundPipeline object p
      → FitsRounds rs n p
      → ReadHandsOut p (read crypto scan max_write rs n p)
  unfolding read
  read-HandsOut [] n p one s h = tt
  read-HandsOut (r ∷ rs) n p one s (h, hs) =
      then_read p n rs _ one (round-Ends crypto scan max_write r n p one)
        (round-HandsOut r n p one s h) hs (read-HandsOut rs n)
