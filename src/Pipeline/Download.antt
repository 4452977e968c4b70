-- ===== src/Pipeline/Download.antt =====
-- What `read` (src/DownloadPipeline.cpp) hands out is the object, in order, if curl delivers it.
pub mod Opened
pub mod Front
pub mod Read
use qing_stor_c_sdk.Prelude.{
  ℕ, ◌^◌, ◌<◌, ◌≡◌, refl, sym, ap, ◌∙◌, Bool, true, false, Bool-cases, inl, inr, List, [], ◌∷◌,
  ◌++◌, append_assoc, append-nil, Bytes, is_empty, if◌then◌else◌, Option, none, some, length, arith,
}
use mathlib.Core.Path.{subst}
use qing_stor_c_sdk.Prelude.Int.{ℤ, pos, ltb_ℤ, ◌≤ℤ◌}
use qing_stor_c_sdk.Errors.{Result, ok, throw, fault}
use qing_stor_c_sdk.Common.Signature.{Crypto}
use qing_stor_c_sdk.Common.Url.{UrlParser}
use qing_stor_c_sdk.Fetcher.{Fetcher, Got, get}
use qing_stor_c_sdk.Fetcher.Start.{Answers, start}
use qing_stor_c_sdk.Fetcher.Content.{due, IsSound, Kept}
use qing_stor_c_sdk.Fetcher.Content.Gets.{FitsGet, Gets, get-Gets}
use qing_stor_c_sdk.Fetcher.Content.Starts.{start-Kept}
use qing_stor_c_sdk.Pipeline.{
  Pipeline, Steps, Round, Ending, returned, continued, set_active, after_turn, deliver_chunks, turn,
  restart, idle, is_failed, went_on, with_front, at_front, behind_launch, launched, launch_from,
  launch, round, resumed_by, read,
}
use qing_stor_c_sdk.Pipeline.Launch.{Launched, launch-Launched}
use qing_stor_c_sdk.Pipeline.Content.{
  AllSound, dues, AllKept, AllKept-trans, first-AllKept, FitsChunks, deliver_chunks-AllKept,
  CompletesMessages, handle_messages-AllKept,
}

module _ (object : Bytes) where
  abbrev pub IsSoundPipeline : Pipeline → Type 0
  IsSoundPipeline p = AllSound object p.active × AllSound object p.pending

  -- What the caller still has to get.
  abbrev pub left : Pipeline → Bytes
  left p = dues object p.active ++ dues object p.pending

  -- From `p` to `q` nothing was handed out.
  pub record Keeps (p q : Pipeline) : Type 0 where
    pub sound : IsSoundPipeline q
    pub same : left q ≡ left p

  Keeps-active :
      (p : Pipeline) (fs : List Fetcher)
      → AllSound object p.pending
      → AllKept object p.active fs
      → Keeps p (record p { active = fs })
  Keeps-active p fs s k = record {
    sound = (k.sound, s);
    same = ap (λ t. t ++ dues object p.pending) k.same;
  }

  AllSound-append :
      (fs gs : List Fetcher) → AllSound object fs → AllSound object gs → AllSound object (fs ++ gs)
  AllSound-append [] gs s t = t
  AllSound-append (f ∷ fs) gs s t = (s.0, AllSound-append fs gs s.1 t)

  -- A fetcher moves from the pending to the active ones.
  dues-moved :
      (active fs : List Fetcher) (f g : Fetcher)
      → due object g ≡ due object f
      → dues object (active ++ (g ∷ [])) ++ dues object fs
        ≡ dues object active ++ dues object (f ∷ fs)
  dues-moved [] fs f g e = rw e (append_assoc (due object f) [] (dues object fs))
  dues-moved (a ∷ active) fs f g e =
      append_assoc (due object a) (dues object (active ++ (g ∷ []))) (dues object fs)
      ∙ ap (λ t. due object a ++ t) (dues-moved active fs f g e)
      ∙ sym (append_assoc (due object a) (dues object active) (dues object (f ∷ fs)))

  module _ (crypto : Crypto) (scan : UrlParser) (max_write : ℕ) (small : max_write < 2 ^ 63) where
    launched-Keeps :
        (n : ℤ) (active fs : List Fetcher) (f : Fetcher) (started : Result (Unit {0}) × Fetcher)
        (further : Result (Unit {0}) × Pipeline)
        → AllSound object active
        → AllSound object fs
        → Kept object f started.1
        → Keeps
            (record { active = active ++ (started.1 ∷ []); pending = fs; connections = n })
            further.1
        → Keeps
            (record { active = active; pending = f ∷ fs; connections = n })
            (launched crypto scan max_write started active fs further n).1
    launched-Keeps n active fs f (fault, g) further s t k h = record {
      sound = (AllSound-append active (g ∷ []) s (k.sound, tt), t);
      same = dues-moved active fs f g k.same;
    }
    launched-Keeps n active fs f (throw e, g) further s t k h = record {
      sound = (AllSound-append active (g ∷ []) s (k.sound, tt), t);
      same = dues-moved active fs f g k.same;
    }
    launched-Keeps n active fs f (ok u, g) further s t k h = record {
      sound = h.sound;
      same = h.same ∙ dues-moved active fs f g k.same;
    }

    launch_from-Keeps :
        (a : Fetcher → Answers) (n : ℤ) (active pending : List Fetcher)
        → AllSound object active
        → AllSound object pending
        → Keeps
            (record { active = active; pending = pending; connections = n })
            (launch_from crypto scan max_write a n active pending).1
    unfolding launch_from
    launch_from-Keeps a n active [] s t = record { sound = (s, t); same = refl }
    launch_from-Keeps a n active (f ∷ fs) s (t, ts) =
        let started = start crypto scan max_write (a f) f in
        let k = start-Kept object crypto scan max_write small (a f) f t in
        elim (Bool-cases (ltb_ℤ (pos (length active)) n)) [
          | inl e ↦ rw e (
              launched-Keeps n active fs f started _ s ts k (
                launch_from-Keeps a n (active ++ (started.1 ∷ [])) fs
                  (AllSound-append active (started.1 ∷ []) s (k.sound, tt)) ts))
          | inr e ↦ rw e (record { sound = (s, (t, ts)); same = refl })
        ]

    -- What curl delivers and reports in a turn.
    abbrev pub FitsTurn : Round → List Fetcher → Type 0
    FitsTurn r fs =
        FitsChunks object r.chunks fs
        × CompletesMessages object r.messages (deliver_chunks r.chunks fs)

    picked :
        (fs : List Fetcher) (b : Bool) (x y : Steps)
        → AllKept object fs x.1
        → AllKept object fs y.1
        → AllKept object fs (if b then x else y).1
    picked fs true x y p q = p
    picked fs false x y p q = q

    turn-AllKept :
        (r : Round) (fs : List Fetcher)
        → AllSound object fs
        → FitsTurn r fs
        → AllKept object fs (turn crypto scan max_write r fs).1
    turn-AllKept r fs s (c, m) =
        let k = deliver_chunks-AllKept object r.chunks fs s c in
        picked fs r.wait_ok _ _
          (picked fs r.perform_ok _ _
            (AllKept-trans object fs (deliver_chunks r.chunks fs) _ k
              (handle_messages-AllKept object r.messages (deliver_chunks r.chunks fs) k.sound m))
            k)
          (record { sound = s; same = refl })

    -- What a call of `read` may come to: the next bytes are handed out, and the end is reported only
    -- when there are no more; otherwise nothing is handed out, and nothing is lost.
    abbrev pub HandsOut : Pipeline → Result Got × Pipeline → Type 0
    HandsOut p (ok got, q) =
        IsSoundPipeline q × (left p ≡ got.bytes ++ left q) × (got.eof ≡ true → left p ≡ [])
    HandsOut p (throw e, q) = Keeps p q
    HandsOut p (fault, q) = Keeps p q

    abbrev EndHandsOut : Pipeline → Ending crypto scan max_write → Type 0
    EndHandsOut p (continued q) = Keeps p q
    EndHandsOut p (returned o) = HandsOut p o

    HandsOut-from :
        (p q : Pipeline) (o : Result Got × Pipeline) → Keeps p q → HandsOut q o → HandsOut p o
    HandsOut-from p q (ok got, x) k (s, b, d) = (s, sym k.same ∙ b, λ t. sym k.same ∙ d t)
    HandsOut-from p q (throw e, x) k h = record { sound = h.sound; same = h.same ∙ k.same }
    HandsOut-from p q (fault, x) k h = record { sound = h.sound; same = h.same ∙ k.same }

    went_on-HandsOut :
        (p : Pipeline) (o : Result (Unit {0}) × Pipeline)
        → Keeps p o.1
        → EndHandsOut p (went_on crypto scan max_write o)
    went_on-HandsOut p (fault, q) k = k
    went_on-HandsOut p (throw e, q) k = k
    went_on-HandsOut p (ok u, q) k = k
