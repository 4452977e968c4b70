-- ===== src/Pipeline/Refused.antt =====
-- `read` (src/DownloadPipeline.cpp) behind a first start that curl refuses.
use qing_stor_c_sdk.Prelude.{
  ℕ, ◌≡◌, ap, ap₂, ◌∙◌, ltb, Bool, true, false, List, [], ◌∷◌, if◌then◌else◌, Option, none, some,
  arith,
}
use qing_stor_c_sdk.Prelude.Int.{ℤ, pos, ◌≤ℤ◌, ltb_ℤ_of_lt}
use qing_stor_c_sdk.Errors.{Result, ok, throw, fault}
use qing_stor_c_sdk.Common.Signature.{Crypto}
use qing_stor_c_sdk.Common.Url.{UrlParser}
use qing_stor_c_sdk.Fetcher.{Fetcher, Got}
use qing_stor_c_sdk.Fetcher.Start.{Answers, start, ensure_buffer, begin, can_start}
use qing_stor_c_sdk.Fetcher.Content.{has_handle}
use qing_stor_c_sdk.Pipeline.{
  Pipeline, Round, launched, launch_from, launch, behind_launch, round, resumed_by, read,
}
use qing_stor_c_sdk.Pipeline.Stuck.{IsStuck, FrontStuck, GetsNothing, read-GetsNothing}

abbrev pub Threw : Option (Result Got × Pipeline) → Type 0
Threw (some (throw e, p)) = FrontStuck p.active
Threw _ = ⊥

-- The pipeline behind a call of `read`; the one that it began with while the call waits.
abbrev pub behind_read : Pipeline → Option (Result Got × Pipeline) → Pipeline
behind_read p none = p
behind_read p (some o) = o.1

module _ (crypto : Crypto) (scan : UrlParser) (max_write : ℕ) where
  -- The pipeline behind several calls.
  abbrev pub behind_reads : List (List Round × ℕ) → Pipeline → Pipeline
  behind_reads [] p = p
  behind_reads ((rs, n) ∷ calls) p =
      behind_reads calls (behind_read p (read crypto scan max_write rs n p))

  behind_read-FrontStuck :
      (p : Pipeline) (o : Option (Result Got × Pipeline))
      → FrontStuck p.active
      → GetsNothing crypto scan max_write o
      → FrontStuck (behind_read p o).active
  behind_read-FrontStuck p none s g = s
  behind_read-FrontStuck p (some (ok got, q)) s g = absurd g
  behind_read-FrontStuck p (some (throw e, q)) s g = g
  behind_read-FrontStuck p (some (fault, q)) s g = g

  behind_reads-FrontStuck :
      (calls : List (List Round × ℕ)) (p : Pipeline)
      → FrontStuck p.active
      → FrontStuck (behind_reads calls p).active
  behind_reads-FrontStuck [] p s = s
  behind_reads-FrontStuck ((rs, n) ∷ calls) p s =
      behind_reads-FrontStuck calls _
        (behind_read-FrontStuck p _ s (read-GetsNothing crypto scan max_write rs n p s))

  abbrev Refused : Result (Unit {0}) × Fetcher → Type 0
  Refused (throw e, f) = IsStuck f
  Refused _ = ⊥

  buffered_parts :
      (malloc_ok : Bool) (f : Fetcher)
      → let g = (ensure_buffer max_write malloc_ok f).1 in
        (g.state ≡ f.state)
        × (g.curl ≡ f.curl)
        × (g.paused ≡ f.paused)
        × (g.read_off ≡ f.read_off)
        × (g.nused ≡ f.nused)
  unfolding ensure_buffer
  buffered_parts malloc_ok f = ground arith

  buffered :
      (malloc_ok : Bool) (f : Fetcher) → IsStuck f → IsStuck (ensure_buffer max_write malloc_ok f).1
  buffered malloc_ok f s =
      let (state, curl, paused, read_off, nused) = buffered_parts malloc_ok f in
      record {
        idle = state ∙ s.idle;
        no_handle = ap has_handle curl ∙ s.no_handle;
        not_paused = paused ∙ s.not_paused;
        empty = ap₂ ltb read_off nused ∙ s.empty;
      }

  if-Refused :
      (b : Bool) (x y : Result (Unit {0}) × Fetcher)
      → Refused x
      → Refused y
      → Refused (if b then x else y)
  if-Refused true x y p q = p
  if-Refused false x y p q = q

  start-Refused :
      (a : Answers) (f : Fetcher)
      → IsStuck f
      → a.easy_handle ≡ none
      → Refused (start crypto scan max_write a f)
  unfolding start begin
  start-Refused a f s e =
      let g = ensure_buffer max_write a.malloc_ok f in
      let t = buffered a.malloc_ok f s in
      if-Refused g.0 _ _ (if-Refused (can_start g.1.state) _ _ (rw e t) t) t

  launched-Threw :
      (started : Result (Unit {0}) × Fetcher) (fs : List Fetcher)
      (further : Result (Unit {0}) × Pipeline) (c : ℤ) (rs : List Round) (n : ℕ) (r : Round)
      → Refused started
      → Threw (
          resumed_by crypto scan max_write
            (behind_launch crypto scan max_write r n
              (launched crypto scan max_write started [] fs further c))
            (read crypto scan max_write rs n))
  launched-Threw (throw e, f) fs further c rs n r s = s
  launched-Threw (ok u, f) fs further c rs n r s = absurd s
  launched-Threw (fault, f) fs further c rs n r s = absurd s

  first-Threw :
      (r : Round) (rs : List Round) (n : ℕ) (f : Fetcher) (fs : List Fetcher) (c : ℤ)
      → pos 1 ≤ℤ c
      → IsStuck f
      → (r.answers f).easy_handle ≡ none
      → Threw (
          read crypto scan max_write
            (r ∷ rs)
            n
            (record { active = []; pending = f ∷ fs; connections = c }))
  unfolding read round launch launch_from
  first-Threw r rs n f fs c one s e =
      rw (ltb_ℤ_of_lt (pos 0) c (omega (arith, one)), read, round, launch, launch_from)
        (launched-Threw (start crypto scan max_write (r.answers f) f) fs _ c rs n r
          (start-Refused (r.answers f) f s e))

  Threw-FrontStuck :
      (p : Pipeline) (o : Option (Result Got × Pipeline))
      → Threw o
      → FrontStuck (behind_read p o).active
  Threw-FrontStuck p none t = absurd t
  Threw-FrontStuck p (some (ok got, q)) t = absurd t
  Threw-FrontStuck p (some (throw e, q)) t = t
  Threw-FrontStuck p (some (fault, q)) t = absurd t

  -- When curl refuses the handle for the first fetcher of a pipeline, the call of `read` throws,
  -- and the pipeline does not recover: whatever curl does later and however often `read` is called
  -- again, no call hands out a byte or reports the end; each waits, throws or is undefined.
  pub read-Threw :
      (r : Round) (rs later : List Round) (n m : ℕ) (calls : List (List Round × ℕ)) (f : Fetcher)
      (fs : List Fetcher) (c : ℤ)
      → pos 1 ≤ℤ c
      → IsStuck f
      → (r.answers f).easy_handle ≡ none
      → let p : Pipeline = record { active = []; pending = f ∷ fs; connections = c } in
        let first = read crypto scan max_write (r ∷ rs) n p in
        Threw first
        × GetsNothing crypto scan max_write
            (read crypto scan max_write later m (behind_reads calls (behind_read p first)))
  read-Threw r rs later n m calls f fs c one s e =
      let p : Pipeline = record { active = []; pending = f ∷ fs; connections = c } in
      let first = read crypto scan max_write (r ∷ rs) n p in
      let t = first-Threw r rs n f fs c one s e in
      (
        t,
        read-GetsNothing crypto scan max_write later m _
            (behind_reads-FrontStuck calls (behind_read p first) (Threw-FrontStuck p first t)),
      )
