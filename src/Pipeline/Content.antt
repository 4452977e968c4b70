-- ===== src/Pipeline/Content.antt =====
-- The bytes that the fetchers of a pipeline (src/DownloadPipeline.cpp) are there for, and what curl
-- is to deliver to them.
use qing_stor_c_sdk.Prelude.{
  ℕ, ◌≡◌, refl, ap, ◌∙◌, true, false, Bool-cases, inl, inr, List, [], ◌∷◌, ◌++◌, Bytes, Option,
}
use qing_stor_c_sdk.Errors.{Result, ok, throw, fault}
use qing_stor_c_sdk.Fetcher.{
  Fetcher, Handle, handle, indeterminate, null, Release, CurlCode, writer_callback, handle_result,
}
use qing_stor_c_sdk.Fetcher.Stream.{IsFetcher}
use qing_stor_c_sdk.Fetcher.Content.{has_handle, due, IsSound, Fits, Kept, writer_callback-Kept}
use qing_stor_c_sdk.Fetcher.Content.Moves.{Completes, KeptIf, handle_result-KeptIf}
use qing_stor_c_sdk.Pipeline.{
  Steps, is_handle, deliver_chunk, deliver_chunks, handled, handle_message, handle_messages,
  then_step,
}

handle_known : (h : ℕ) (c : Handle) → is_handle h c ≡ true → has_handle c ≡ true
handle_known h indeterminate e = cc
handle_known h null e = cc
handle_known h (handle k) e = refl

module _ (object : Bytes) where
  abbrev pub AllSound : List Fetcher → Type 0
  AllSound [] = Unit
  AllSound (f ∷ fs) = IsSound object f × AllSound fs

  -- The bytes that the fetchers still have to hand out, in their order.
  abbrev pub dues : List Fetcher → Bytes
  dues [] = []
  dues (f ∷ fs) = due object f ++ dues fs

  pub record AllKept (fs gs : List Fetcher) : Type 0 where
    pub sound : AllSound gs
    pub same : dues gs ≡ dues fs

  AllKept-refl : (fs : List Fetcher) → AllSound fs → AllKept fs fs
  AllKept-refl fs s = record { sound = s; same = refl }

  pub AllKept-trans : (fs gs hs : List Fetcher) → AllKept fs gs → AllKept gs hs → AllKept fs hs
  AllKept-trans fs gs hs p q = record { sound = q.sound; same = q.same ∙ p.same }

  pub first-AllKept :
      (f g : Fetcher) (fs : List Fetcher)
      → AllSound fs
      → Kept object f g
      → AllKept (f ∷ fs) (g ∷ fs)
  first-AllKept f g fs s k = record { sound = (k.sound, s); same = ap (λ t. t ++ dues fs) k.same }

  behind-AllKept :
      (f : Fetcher) (fs gs : List Fetcher)
      → IsSound object f
      → AllKept fs gs
      → AllKept (f ∷ fs) (f ∷ gs)
  behind-AllKept f fs gs s k = record {
    sound = (s, k.sound);
    same = ap (λ t. due object f ++ t) k.same;
  }

  handle-IsFetcher :
      (h : ℕ) (f : Fetcher) → IsSound object f → is_handle h f.curl ≡ true → IsFetcher f
  handle-IsFetcher h f s e = elim s.ready [
    | inl u ↦ let t = handle_known h f.curl e in let n = u.no_handle in absurd cc
    | inr v ↦ v
  ]

  -- A chunk is what is to come next for the fetcher that gets it.
  abbrev pub FitsChunk : ℕ → Bytes → List Fetcher → Type 0
  FitsChunk h c [] = Unit
  FitsChunk h c (f ∷ fs) =
      (is_handle h f.curl ≡ true → Fits object c f)
      × (is_handle h f.curl ≡ false → FitsChunk h c fs)

  deliver_chunk-AllKept :
      (h : ℕ) (c : Bytes) (fs : List Fetcher)
      → AllSound fs
      → FitsChunk h c fs
      → AllKept fs (deliver_chunk h c fs)
  deliver_chunk-AllKept h c [] s t = AllKept-refl [] s
  deliver_chunk-AllKept h c (f ∷ fs) (s, ss) (hit, miss) = elim (Bool-cases (is_handle h f.curl)) [
    | inl e ↦ rw e (
        first-AllKept f (writer_callback c f).1 fs ss
          (writer_callback-Kept object c f s (handle-IsFetcher h f s e) (hit e)))
    | inr e ↦ rw e (behind-AllKept f fs _ s (deliver_chunk-AllKept h c fs ss (miss e)))
  ]

  abbrev pub FitsChunks : List (ℕ × Bytes) → List Fetcher → Type 0
  FitsChunks [] fs = Unit
  FitsChunks ((h, c) ∷ cs) fs = FitsChunk h c fs × FitsChunks cs (deliver_chunk h c fs)

  pub deliver_chunks-AllKept :
      (cs : List (ℕ × Bytes)) (fs : List Fetcher)
      → AllSound fs
      → FitsChunks cs fs
      → AllKept fs (deliver_chunks cs fs)
  deliver_chunks-AllKept [] fs s t = AllKept-refl fs s
  deliver_chunks-AllKept ((h, c) ∷ cs) fs s (t, ts) =
      let k = deliver_chunk-AllKept h c fs s t in
      AllKept-trans fs (deliver_chunk h c fs) _ k
        (deliver_chunks-AllKept cs (deliver_chunk h c fs) k.sound ts)

  -- A transfer that a message reports as successful has delivered all.
  abbrev pub CompletesMessage : ℕ → CurlCode → Option ℕ → List Fetcher → Type 0
  CompletesMessage h res code [] = Unit
  CompletesMessage h res code (f ∷ fs) =
      (is_handle h f.curl ≡ true → Completes object f (handle_result res code f))
      × (is_handle h f.curl ≡ false → CompletesMessage h res code fs)

  handled-AllKept :
      (r : Result (Fetcher × List Release)) (f : Fetcher) (fs : List Fetcher)
      → AllSound (f ∷ fs)
      → KeptIf object f r
      → AllKept (f ∷ fs) (handled r f fs).1
  handled-AllKept fault f fs s k = AllKept-refl (f ∷ fs) s
  handled-AllKept (throw e) f fs s k = AllKept-refl (f ∷ fs) s
  handled-AllKept (ok r) f fs s k = first-AllKept f r.0 fs s.1 k

  handle_message-AllKept :
      (h : ℕ) (res : CurlCode) (code : Option ℕ) (fs : List Fetcher)
      → AllSound fs
      → CompletesMessage h res code fs
      → AllKept fs (handle_message h res code fs).1
  handle_message-AllKept h res code [] s t = AllKept-refl [] s
  handle_message-AllKept h res code (f ∷ fs) (s, ss) (hit, miss) =
      elim (Bool-cases (is_handle h f.curl)) [
        | inl e ↦ rw e (
            handled-AllKept _ f fs (s, ss)
              (handle_result-KeptIf object res code f s (handle-IsFetcher h f s e) (hit e)))
        | inr e ↦ rw e (behind-AllKept f fs _ s (handle_message-AllKept h res code fs ss (miss e)))
      ]

  abbrev pub CompletesMessages : List (ℕ × (CurlCode × Option ℕ)) → List Fetcher → Type 0
  CompletesMessages [] fs = Unit
  CompletesMessages ((h, (res, code)) ∷ ms) fs =
      CompletesMessage h res code fs × CompletesMessages ms (handle_message h res code fs).1

  then_step-AllKept :
      (fs : List Fetcher) (d : Steps) (next : List Fetcher → Steps)
      → AllKept fs d.1
      → AllKept fs (next d.1).1
      → AllKept fs (then_step d next).1
  then_step-AllKept fs (fault, l) next k h = k
  then_step-AllKept fs (throw e, l) next k h = k
  then_step-AllKept fs (ok u, l) next k h = h

  pub handle_messages-AllKept :
      (ms : List (ℕ × (CurlCode × Option ℕ))) (fs : List Fetcher)
      → AllSound fs
      → CompletesMessages ms fs
      → AllKept fs (handle_messages ms fs).1
  handle_messages-AllKept [] fs s t = AllKept-refl fs s
  handle_messages-AllKept ((h, (res, code)) ∷ ms) fs s (t, ts) =
      let d = handle_message h res code fs in
      let k = handle_message-AllKept h res code fs s t in
      then_step-AllKept fs d (handle_messages ms) k
        (AllKept-trans fs d.1 _ k (handle_messages-AllKept ms d.1 k.sound ts))
