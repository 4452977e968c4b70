-- ===== src/Pipeline/Order.antt =====
-- The order in which `read` (src/DownloadPipeline.cpp) goes through the fetchers.
use qing_stor_c_sdk.Prelude.{
  ℕ, ◌≡◌, refl, sym, ap, ◌∙◌, Bool-cases, inl, inr, true, false, List, [], ◌∷◌, ◌++◌, length,
  is_empty, arith, append_assoc, Bool, Option, none, some,
}
use mathlib.Core.Path.{subst}
use qing_stor_c_sdk.Prelude.Int.{ℤ, pos, pos_part, neg_part, ◌≤ℤ◌}
use qing_stor_c_sdk.Errors.{Result, ok, throw, fault}
use qing_stor_c_sdk.Common.Signature.{Crypto}
use qing_stor_c_sdk.Common.Url.{UrlParser}
use qing_stor_c_sdk.Fetcher.{Fetcher, Got, get}
use qing_stor_c_sdk.Pipeline.{
  Steps, Pipeline, Round, round, read, deliver_chunks, turn, after_turn, restart, idle, with_front,
  at_front, behind_launch, went_on, resumed_by, Ending, returned, continued,
}
use qing_stor_c_sdk.Pipeline.Launch.{span, spans, queue, Launched, launch-Launched, start-span}
use qing_stor_c_sdk.Pipeline.Spans.{get-span, deliver_chunks-spans, handle_messages-spans}

-- From `p` to `p'` the queue has lost fetchers at its front only.
pub record Advanced (p p' : Pipeline) : Type 0 where
  pub dropped : List (ℤ × ℤ)
  pub rest : dropped ++ queue p' ≡ queue p
  pub kept : p'.connections ≡ p.connections

abbrev pub Drained : Bool → Pipeline → Type 0
Drained true p = queue p ≡ []
Drained false p = Unit

abbrev pub Answered : Pipeline → Result Got × Pipeline → Type 0
Answered p (ok got, p') = Advanced p p' × Drained got.eof p'
Answered p (throw e, p') = Advanced p p'
Answered p (fault, p') = Advanced p p'

abbrev pub Reads : Pipeline → Option (Result Got × Pipeline) → Type 0
Reads p none = Unit
Reads p (some o) = Answered p o

Advanced-trans : (p q x : Pipeline) → Advanced p q → Advanced q x → Advanced p x
Advanced-trans p q x a b = record {
  dropped = a.dropped ++ b.dropped;
  rest = append_assoc a.dropped b.dropped (queue x) ∙ ap (λ l. a.dropped ++ l) b.rest ∙ a.rest;
  kept = b.kept ∙ a.kept;
}

module _ (crypto : Crypto) (scan : UrlParser) (max_write : ℕ) where
  abbrev pub Ends : Pipeline → Ending crypto scan max_write → Type 0
  Ends p (returned o) = Answered p o
  Ends p (continued p') = Advanced p p'

  Advanced-active :
      (p : Pipeline) (fs : List Fetcher)
      → spans fs ≡ spans p.active
      → Advanced p (record p { active = fs })
  Advanced-active p fs e = record {
    dropped = [];
    rest = ap (λ l. l ++ spans p.pending) e;
    kept = refl;
  }

  turn-spans :
      (r : Round) (fs : List Fetcher) → spans (turn crypto scan max_write r fs).1 ≡ spans fs
  turn-spans r fs = elim (Bool-cases r.wait_ok) [
    | inr e ↦ rw e refl
    | inl e ↦ elim (Bool-cases r.perform_ok) [
      | inr e' ↦ rw (e, e') (deliver_chunks-spans r.chunks fs)
      | inl e' ↦
          rw (e, e')
            (handle_messages-spans r.messages (deliver_chunks r.chunks fs)
              ∙ deliver_chunks-spans r.chunks fs)
    ]
  ]

  restart-span : (r : Round) (f : Fetcher) → span (restart crypto scan max_write r f).1 ≡ span f
  restart-span r f = ground (arith, start-span crypto scan max_write (r.answers f) f)

  turned :
      (p : Pipeline) (d : Steps)
      → spans d.1 ≡ spans p.active
      → Ends p (went_on crypto scan max_write (after_turn crypto scan max_write p d))
  turned p (ok u, l) e = Advanced-active p l e
  turned p (throw x, l) e = Advanced-active p l e
  turned p (fault, l) e = Advanced-active p l e

  idle-Ends :
      (r : Round) (p : Pipeline) (fs : List Fetcher) (s : Result (Unit {0}) × Fetcher)
      → spans (s.1 ∷ fs) ≡ spans p.active
      → Ends p (went_on crypto scan max_write (idle crypto scan max_write r p fs s))
  idle-Ends r p fs (ok u, f) e =
      turned p (turn crypto scan max_write r (f ∷ fs)) (turn-spans r (f ∷ fs) ∙ e)
  idle-Ends r p fs (throw x, f) e = Advanced-active p (f ∷ fs) e
  idle-Ends r p fs (fault, f) e = Advanced-active p (f ∷ fs) e

  with_front-Ends :
      (r : Round) (n : ℕ) (p : Pipeline) (f : Fetcher) (fs : List Fetcher)
      → spans (f ∷ fs) ≡ spans p.active
      → Ends p (with_front crypto scan max_write r n p f fs)
  with_front-Ends r n p f fs e =
      let out = get r.resumed n f in
      let same : span out.1 ≡ span f = get-span r.resumed n f in
      let back : spans (out.1 ∷ fs) ≡ spans p.active = ap (λ s. s ∷ spans fs) same ∙ e in
      elim (Bool-cases out.0.eof) [
        | inl t ↦
            rw t (record {
              dropped = span f ∷ [];
              rest = ap (λ l. l ++ spans p.pending) e;
              kept = refl;
            })
        | inr t ↦ elim (Bool-cases (is_empty out.0.bytes)) [
          | inl z ↦
              rw (t, z) (idle-Ends r p fs _ (ap (λ s. s ∷ spans fs) (restart-span r out.1) ∙ back))
          | inr z ↦
              rw (t, z)
                (
                  Advanced-active p (out.1 ∷ fs) back,
                  subst (λ b. Drained b (record p { active = out.1 ∷ fs })) (sym t) tt,
                )
        ]
      ]

  Advanced-from :
      (p q x : Pipeline)
      → queue q ≡ queue p
      → q.connections ≡ p.connections
      → Advanced q x
      → Advanced p x
  Advanced-from p q x e c a = record { dropped = a.dropped; rest = a.rest ∙ e; kept = a.kept ∙ c }

  Ends-from :
      (p q : Pipeline) (end : Ending crypto scan max_write)
      → queue q ≡ queue p
      → q.connections ≡ p.connections
      → Ends q end
      → Ends p end
  Ends-from p q (continued x) e c a = Advanced-from p q x e c a
  Ends-from p q (returned (ok got, x)) e c (a, d) = (Advanced-from p q x e c a, d)
  Ends-from p q (returned (throw t, x)) e c a = Advanced-from p q x e c a
  Ends-from p q (returned (fault, x)) e c a = Advanced-from p q x e c a

  Advanced-refl : (p : Pipeline) → Advanced p p
  Advanced-refl p = record { dropped = []; rest = refl; kept = refl }

  at_front-Ends :
      (r : Round) (n : ℕ) (p : Pipeline) (active : List Fetcher)
      → spans active ≡ spans p.active
      → (active ≡ [] → queue p ≡ [])
      → Ends p (at_front crypto scan max_write r n p active)
  at_front-Ends r n p [] e d = (Advanced-refl p, d refl)
  at_front-Ends r n p (f ∷ fs) e d = with_front-Ends r n p f fs e

  -- With at least one connection no fetcher is pending while none is active.
  nothing_left :
      (p q : Pipeline) (u : Unit {0})
      → pos 1 ≤ℤ p.connections
      → Launched p (ok u, q)
      → q.active ≡ []
      → queue q ≡ []
  nothing_left p q u one l e = elim l.saturated [
    | inl wrong ↦ absurd (wrong refl)
    | inr (inl none_pending) ↦ rw (e, none_pending) refl
    | inr (inr full) ↦ absurd (omega (arith, full, one, ap length e))
  ]

  behind_launch-Ends :
      (r : Round) (n : ℕ) (p : Pipeline) (out : Result (Unit {0}) × Pipeline)
      → pos 1 ≤ℤ p.connections
      → Launched p out
      → Ends p (behind_launch crypto scan max_write r n out)
  behind_launch-Ends r n p (ok u, q) one l =
      Ends-from p q _ l.order l.kept (at_front-Ends r n q q.active refl (nothing_left p q u one l))
  behind_launch-Ends r n p (throw e, q) one l = Advanced-from p q q l.order l.kept (Advanced-refl q)
  behind_launch-Ends r n p (fault, q) one l = Advanced-from p q q l.order l.kept (Advanced-refl q)

  pub round-Ends :
      (r : Round) (n : ℕ) (p : Pipeline)
      → pos 1 ≤ℤ p.connections
      → Ends p (round crypto scan max_write r n p)
  unfolding round
  round-Ends r n p one =
      behind_launch-Ends r n p _ one (launch-Launched crypto scan max_write r.answers p)

  Answered-from :
      (p q : Pipeline) (o : Result Got × Pipeline) → Advanced p q → Answered q o → Answered p o
  Answered-from p q (ok got, x) a (b, d) = (Advanced-trans p q x a b, d)
  Answered-from p q (throw e, x) a b = Advanced-trans p q x a b
  Answered-from p q (fault, x) a b = Advanced-trans p q x a b

  Reads-from :
      (p q : Pipeline) (o : Option (Result Got × Pipeline)) → Advanced p q → Reads q o → Reads p o
  Reads-from p q none a b = tt
  Reads-from p q (some o) a b = Answered-from p q o a b

  then_read :
      (p : Pipeline) (n : ℕ) (rs : List Round) (end : Ending crypto scan max_write)
      → Ends p end
      → pos 1 ≤ℤ p.connections
      → ((q : Pipeline) → pos 1 ≤ℤ q.connections → Reads q (read crypto scan max_write rs n q))
      → Reads p (resumed_by crypto scan max_write end (read crypto scan max_write rs n))
  then_read p n rs (returned o) h one later = h
  then_read p n rs (continued q) h one later =
      Reads-from p q _ h (later q (omega (arith, one, ap pos_part h.kept, ap neg_part h.kept)))

  -- `read` goes through the fetchers in their order: what it leaves of the queue is its end, whether
  -- it hands out bytes or throws; and it reports the end only when the queue is empty. It needs at
  -- least one connection.
  pub read-Reads :
      (rs : List Round) (n : ℕ) (p : Pipeline)
      → pos 1 ≤ℤ p.connections
      → Reads p (read crypto scan max_write rs n p)
  unfolding read
  read-Reads [] n p one = tt
  read-Reads (r ∷ rs) n p one = then_read p n rs _ (round-Ends r n p one) one (read-Reads rs n)
