-- ===== src/Pipeline/Launch.antt =====
-- `launch` and the queue of fetchers (src/DownloadPipeline.cpp).
use qing_stor_c_sdk.Prelude.{
  ℕ, ◌+◌, ◌≡◌, refl, ◌≢◌, ◌⊎◌, ap, ◌∙◌, Bool-cases, inl, inr, List, [], ◌∷◌, ◌++◌, map, length,
  arith, length-append,
}
use qing_stor_c_sdk.Prelude.Int.{ℤ, pos, ltb_ℤ, ◌≤ℤ◌, lt_of_ltb_ℤ, ge_of_ltb_ℤ}
use qing_stor_c_sdk.Errors.{Result, ok, throw, fault}
use qing_stor_c_sdk.Common.Signature.{Crypto}
use qing_stor_c_sdk.Common.Url.{UrlParser}
use qing_stor_c_sdk.Fetcher.{Fetcher}
use qing_stor_c_sdk.Fetcher.Start.{Answers, start, begin, ensure_buffer, attach}
use qing_stor_c_sdk.Pipeline.{Pipeline, launch_from, launch, launched}

-- The range that a fetcher is there for.
abbrev pub span : Fetcher → ℤ × ℤ
span f = (f.offset, f.len)

abbrev pub spans : List Fetcher → List (ℤ × ℤ)
spans = map span

-- All the fetchers, in the order of the queue.
abbrev pub queue : Pipeline → List (ℤ × ℤ)
queue p = spans p.active ++ spans p.pending

-- The queue is as it was; there are no more active fetchers than connections, unless there were;
-- and if nothing was thrown a fetcher is pending only if there are as many as that.
pub record Launched (p : Pipeline) (out : Result (Unit {0}) × Pipeline) : Type 0 where
  pub order : queue out.1 ≡ queue p
  pub bounded : (pos (length out.1.active) ≤ℤ p.connections) ⊎ (out.1.active ≡ p.active)
  pub kept : out.1.connections ≡ p.connections
  pub saturated :
      (out.0 ≢ ok tt) ⊎ (out.1.pending ≡ []) ⊎ (p.connections ≤ℤ pos (length out.1.active))

module _ (crypto : Crypto) (scan : UrlParser) (max_write : ℕ) where
  pub start-span : (a : Answers) (f : Fetcher) → span (start crypto scan max_write a f).1 ≡ span f
  unfolding start begin ensure_buffer attach
  start-span a f = ground arith

  move_span :
      (active fs : List Fetcher) (f f' : Fetcher)
      → span f' ≡ span f
      → spans (active ++ (f' ∷ [])) ++ spans fs ≡ spans active ++ spans (f ∷ fs)
  move_span [] fs f f' e = rw e refl
  move_span (a ∷ as') fs f f' e = ap (λ l. span a ∷ l) (move_span as' fs f f' e)

  launched-Launched :
      (n : ℤ) (active fs : List Fetcher) (f : Fetcher) (started : Result (Unit {0}) × Fetcher)
      (further : Result (Unit {0}) × Pipeline)
      → span started.1 ≡ span f
      → pos (length active) ≤ℤ n
      → (pos (length active + 1) ≤ℤ n)
      → Launched
          (record { active = active ++ (started.1 ∷ []); pending = fs; connections = n })
          further
      → Launched
          (record { active = active; pending = f ∷ fs; connections = n })
          (launched crypto scan max_write started active fs further n)
  launched-Launched n active fs f (ok u, f') further e le le' h = record {
    order = h.order ∙ move_span active fs f f' e;
    bounded = elim h.bounded [
      | inl b ↦ inl b
      | inr same ↦ inl (omega (arith, ap length same, length-append active (f' ∷ []), le'))
    ];
    kept = h.kept;
    saturated = h.saturated;
  }
  launched-Launched n active fs f (throw x, f') further e le le' h = record {
    order = move_span active fs f f' e;
    bounded = inl (omega (arith, length-append active (f' ∷ []), le'));
    kept = refl;
    saturated = inl (λ t. cc);
  }
  launched-Launched n active fs f (fault, f') further e le le' h = record {
    order = move_span active fs f f' e;
    bounded = inl (omega (arith, length-append active (f' ∷ []), le'));
    kept = refl;
    saturated = inl (λ t. cc);
  }

  launch_from-Launched :
      (a : Fetcher → Answers) (n : ℤ) (active pending : List Fetcher)
      → Launched
          (record { active = active; pending = pending; connections = n })
          (launch_from crypto scan max_write a n active pending)
  unfolding launch_from
  launch_from-Launched a n active [] = record {
    order = refl;
    bounded = inr refl;
    kept = refl;
    saturated = inr (inl refl);
  }
  launch_from-Launched a n active (f ∷ fs) = elim (Bool-cases (ltb_ℤ (pos (length active)) n)) [
    | inl e ↦
        let started = start crypto scan max_write (a f) f in
        let less = lt_of_ltb_ℤ (pos (length active)) n e in
        rw e (
          launched-Launched n active fs f started _ (start-span (a f) f) (omega (arith, less))
            (omega (arith, less)) (launch_from-Launched a n (active ++ (started.1 ∷ [])) fs))
    | inr e ↦ rw e (record {
      order = refl;
      bounded = inr refl;
      kept = refl;
      saturated = inr (inr (ge_of_ltb_ℤ (pos (length active)) n e));
    })
  ]

  -- `launch` keeps the queue of fetchers, active ones first, as it is; it never makes more of them
  -- active than there are connections; and unless a start throws it leaves one pending only if as
  -- many as that are active.
  pub launch-Launched :
      (a : Fetcher → Answers) (p : Pipeline) → Launched p (launch crypto scan max_write a p)
  unfolding launch
  launch-Launched a p = launch_from-Launched a p.connections p.active p.pending

  launched-front :
      (started : Result (Unit {0}) × Fetcher) (f : Fetcher) (active fs : List Fetcher)
      (further : Result (Unit {0}) × Pipeline) (n : ℤ)
      → (rest : List Fetcher) × (further.1.active ≡ f ∷ rest)
      → (rest : List Fetcher) × ((launched crypto scan max_write started
            (f ∷ active)
            fs
            further
            n).1.active
          ≡ f ∷ rest)
  launched-front (fault, g) f active fs further n h = (active ++ (g ∷ []), refl)
  launched-front (throw e, g) f active fs further n h = (active ++ (g ∷ []), refl)
  launched-front (ok u, g) f active fs further n h = h

  -- The first active fetcher stays the first.
  pub launch_from-front :
      (a : Fetcher → Answers) (n : ℤ) (f : Fetcher) (active fs : List Fetcher)
      → (rest : List Fetcher) × ((launch_from crypto scan max_write a n (f ∷ active) fs).1.active
          ≡ f ∷ rest)
  unfolding launch_from
  launch_from-front a n f active [] = (active, refl)
  launch_from-front a n f active (g ∷ fs) =
      let started = start crypto scan max_write (a g) g in
      elim (Bool-cases (ltb_ℤ (pos (length (f ∷ active))) n)) [
        | inl e ↦ rw e (
            launched-front started f active fs _ n
              (launch_from-front a n f (active ++ (started.1 ∷ [])) fs))
        | inr e ↦ rw e (active, refl)
      ]
