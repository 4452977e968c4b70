-- ===== src/Pipeline/Spans.antt =====
-- What curl and `get` do to a fetcher (src/HTTPFetcher.cpp) leaves its byte range as it is.
use qing_stor_c_sdk.Prelude.{
  ℕ, ◌≡◌, refl, ap, ◌∙◌, Bool-cases, inl, inr, false, List, [], ◌∷◌, Bytes, arith, Option,
}
use qing_stor_c_sdk.Errors.{Result, ok, throw, fault}
use qing_stor_c_sdk.Fetcher.{
  Fetcher, CurlCode, writer_callback, get, get_available, deliver, handle_result, fail, finish,
  cleanup, Release,
}
use qing_stor_c_sdk.Pipeline.{
  Steps, handled, then_step, deliver_chunk, deliver_chunks, handle_message, handle_messages,
  is_handle,
}
use qing_stor_c_sdk.Pipeline.Launch.{span, spans}

writer_callback-span : (c : Bytes) (f : Fetcher) → span (writer_callback c f).1 ≡ span f
unfolding writer_callback
writer_callback-span c f = ground arith

deliver-span : (cs : List Bytes) (f : Fetcher) → span (deliver cs f) ≡ span f
unfolding deliver
deliver-span [] f = refl
deliver-span (c ∷ cs) f = deliver-span cs (writer_callback c f).1 ∙ writer_callback-span c f

pub get-span : (rs : List (List Bytes)) (n : ℕ) (f : Fetcher) → span (get rs n f).1 ≡ span f
unfolding get get_available
get-span [] n f = ground arith
get-span (r ∷ rs) n f = ground (
  arith,
  get-span rs n (deliver r (record f { paused = false })),
  deliver-span r (record f { paused = false }),
)

-- The result keeps the range, if there is one.
abbrev Spanned : Fetcher → Result (Fetcher × List Release) → Type 0
Spanned f (ok r) = span r.0 ≡ span f
Spanned f (throw e) = Unit
Spanned f fault = Unit

handle_result-Spanned :
    (res : CurlCode) (code : Option ℕ) (f : Fetcher) → Spanned f (handle_result res code f)
unfolding handle_result fail finish cleanup
handle_result-Spanned res code f = ground arith

deliver_chunk-spans :
    (h : ℕ) (c : Bytes) (fs : List Fetcher) → spans (deliver_chunk h c fs) ≡ spans fs
deliver_chunk-spans h c [] = refl
deliver_chunk-spans h c (f ∷ fs) = elim (Bool-cases (is_handle h f.curl)) [
  | inl e ↦ rw e (ap (λ s. s ∷ spans fs) (writer_callback-span c f))
  | inr e ↦ rw e (ap (λ l. span f ∷ l) (deliver_chunk-spans h c fs))
]

pub deliver_chunks-spans :
    (cs : List (ℕ × Bytes)) (fs : List Fetcher) → spans (deliver_chunks cs fs) ≡ spans fs
deliver_chunks-spans [] fs = refl
deliver_chunks-spans ((h, c) ∷ cs) fs =
    deliver_chunks-spans cs (deliver_chunk h c fs) ∙ deliver_chunk-spans h c fs

head_message :
    (f : Fetcher) (fs : List Fetcher) (r : Result (Fetcher × List Release))
    → Spanned f r
    → spans (handled r f fs).1 ≡ spans (f ∷ fs)
head_message f fs (ok x) h = ap (λ s. s ∷ spans fs) h
head_message f fs (throw e) h = refl
head_message f fs fault h = refl

handle_message-spans :
    (h : ℕ) (res : CurlCode) (code : Option ℕ) (fs : List Fetcher)
    → spans (handle_message h res code fs).1 ≡ spans fs
handle_message-spans h res code [] = refl
handle_message-spans h res code (f ∷ fs) = elim (Bool-cases (is_handle h f.curl)) [
  | inl e ↦ rw e (head_message f fs _ (handle_result-Spanned res code f))
  | inr e ↦ rw e (ap (λ l. span f ∷ l) (handle_message-spans h res code fs))
]

next_messages :
    (d : Steps) (fs : List Fetcher) (next : List Fetcher → Steps)
    → spans d.1 ≡ spans fs
    → ((l : List Fetcher) → spans (next l).1 ≡ spans l)
    → spans (then_step d next).1 ≡ spans fs
next_messages (fault, l) fs next h rest = h
next_messages (throw e, l) fs next h rest = h
next_messages (ok u, l) fs next h rest = rest l ∙ h

pub handle_messages-spans :
    (ms : List (ℕ × (CurlCode × Option ℕ))) (fs : List Fetcher)
    → spans (handle_messages ms fs).1 ≡ spans fs
handle_messages-spans [] fs = refl
handle_messages-spans ((h, (res, code)) ∷ ms) fs =
    next_messages (handle_message h res code fs) fs (handle_messages ms)
      (handle_message-spans h res code fs) (handle_messages-spans ms)
