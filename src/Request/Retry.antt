-- ===== src/Request/Retry.antt =====
-- The retry loop of `DoGetJSON` (src/QingStorCommon.cpp): the attempts it makes, and what they
-- send of an upload.
use qing_stor_c_sdk.Prelude.{
  ℕ, zero, suc, ◌-◌, ◌≤◌, ◌≡◌, refl, ap, max, ◌++◌, List, append_assoc, arith, Option, some,
  Bool-cases, inl, inr,
}
use mathlib.Core.Path.{subst}
use qing_stor_c_sdk.Errors.{Result, ok, throw, fault, Exception}
use qing_stor_c_sdk.Common.Upload.{MemoryData, send_body, IsMemory, send_body-Sends}
use qing_stor_c_sdk.Request.{
  Platform, Request, Attempt, CurlOption, attempt, attempts, do_get_json, request_options,
  after_options, retried,
}

module _ {World Json : Type 0} (p : Platform World Json) (q : Request) where
  -- `n` attempts, all but the last of which threw; each goes on where the one before it stopped.
  pub data Tries : ℕ → Option MemoryData → World → Attempt World Json → Type 0 where
    last : (md : Option MemoryData) (w : World) → Tries 1 md w (attempt p q md w)
    again :
        (md : Option MemoryData) (w : World) (e : Exception) (n : ℕ) (b : Attempt World Json)
        → (attempt p q md w).result ≡ throw e
        → Tries n (attempt p q md w).memory (attempt p q md w).world b
        → Tries (suc n) md w (record b { sent = (attempt p q md w).sent ++ b.sent })

  -- A loop that may make `most` attempts makes all of them if it throws in the end.
  pub record Retried (most : ℕ) (md : Option MemoryData) (w : World) (a : Attempt World Json)
      : Type 0 where
    pub count : ℕ
    pub tries : Tries count md w a
    pub bounded : count ≤ most
    pub all : (e : Exception) → a.result ≡ throw e → count ≡ most

  retried-Retried :
      (most : ℕ) (md : Option MemoryData) (w : World) (b : Attempt World Json)
      (r : Result (Option Json))
      → (attempt p q md w).result ≡ r
      → Retried most (attempt p q md w).memory (attempt p q md w).world b
      → 1 ≤ most
      → Retried (suc most) md w (retried p (attempt p q md w) b r)
  retried-Retried most md w b fault e h low = record {
    count = 1;
    tries = last md w;
    bounded = omega arith;
    all = λ x t. cc;
  }
  retried-Retried most md w b (ok v) e h low = record {
    count = 1;
    tries = last md w;
    bounded = omega arith;
    all = λ x t. cc;
  }
  retried-Retried most md w b (throw x) e h low = record {
    count = suc h.count;
    tries = again md w x h.count b e h.tries;
    bounded = omega (arith, h.bounded);
    all = λ y t. ap suc (h.all y t);
  }

  attempts-Retried :
      (n : ℕ) (md : Option MemoryData) (w : World) → Retried (suc n) md w (attempts p n q md w)
  unfolding attempts
  attempts-Retried zero md w = record {
    count = 1;
    tries = last md w;
    bounded = omega arith;
    all = λ e h. refl;
  }
  attempts-Retried (suc n) md w =
      let a = attempt p q md w in
      retried-Retried (suc n) md w _ a.result refl (attempts-Retried n a.memory a.world)
        (omega arith)

  -- The loop makes at least one attempt and at most `retries`, one after the other; the first that
  -- does not throw decides, and it throws only when all the attempts have been made.
  pub do_get_json-Retried :
      (md : Option MemoryData) (retries : ℕ) (w : World)
      → Retried (max 1 retries) md w (do_get_json p q md retries w)
  unfolding do_get_json
  do_get_json-Retried md retries w =
      let e : suc (retries - 1) ≡ max 1 retries = omega arith in
      subst (λ most. Retried most md w (attempts p (retries - 1) q md w)) e
        (attempts-Retried (retries - 1) md w)

  -- What an upload leaves: still a proper `MemoryData`, whose text is what has not been sent.
  abbrev pub SendsOnce : MemoryData → Attempt World Json → Type 0
  SendsOnce m a =
      (m' : MemoryData) × (a.memory ≡ some m') × IsMemory m' × (a.sent ++ m'.advance ≡ m.advance)

  after_options-SendsOnce :
      (m : MemoryData) (w : World) (r : Result (List CurlOption))
      → IsMemory m
      → SendsOnce m (after_options p q (some m) w r)
  after_options-SendsOnce m w fault h = (m, refl, h, refl)
  after_options-SendsOnce m w (throw e) h = (m, refl, h, refl)
  after_options-SendsOnce m w (ok options) h =
      let reads = (p.perform options m.advance w).0.reads in
      let s = send_body-Sends reads m h in ((send_body reads m).1, refl, s.agrees, s.text)

  attempt-SendsOnce :
      (m : MemoryData) (w : World) → IsMemory m → SendsOnce m (attempt p q (some m) w)
  unfolding attempt
  attempt-SendsOnce m w h =
      let w₁ = (p.easy_init w).1 in
      elim (Bool-cases (p.easy_init w).0) [
        | inl e ↦
            rw e (after_options-SendsOnce m w₁ (request_options p q (some m) (p.timebuf w₁)) h)
        | inr e ↦ rw e (m, refl, h, refl)
      ]

  retried-SendsOnce :
      (m : MemoryData) (a b : Attempt World Json) (r : Result (Option Json))
      → (s : SendsOnce m a) → SendsOnce s.0 b
      → SendsOnce m (retried p a b r)
  retried-SendsOnce m a b fault s t = s
  retried-SendsOnce m a b (ok v) s t = s
  retried-SendsOnce m a b (throw e) s t = (t.0, t.1, t.2, rw (append_assoc, t.3) s.3)

  attempts-SendsOnce :
      (n : ℕ) (m : MemoryData) (w : World) → IsMemory m → SendsOnce m (attempts p n q (some m) w)
  unfolding attempts
  attempts-SendsOnce zero m w h = attempt-SendsOnce m w h
  attempts-SendsOnce (suc n) m w h =
      let a = attempt p q (some m) w in
      let s = attempt-SendsOnce m w h in
      let t = attempts-SendsOnce n s.0 a.world s.2 in retried-SendsOnce m a _ a.result s (rw s.1 t)

  -- All the attempts at an upload together send its text at most once: what they sent, one after
  -- the other, and what is left make up the text. A retry so sends only what the attempt before it
  -- had not read.
  pub do_get_json-SendsOnce :
      (m : MemoryData) (retries : ℕ) (w : World)
      → IsMemory m
      → SendsOnce m (do_get_json p q (some m) retries w)
  unfolding do_get_json
  do_get_json-SendsOnce m retries w h = attempts-SendsOnce (retries - 1) m w h
