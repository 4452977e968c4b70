-- ===== src/Fetcher/Life.antt =====
-- The life of an `HTTPFetcher` (src/HTTPFetcher.cpp): what the result of a transfer does to it, and
-- what it is left with.
use qing_stor_c_sdk.Prelude.{
  ℕ, ◌+◌, ◌≡◌, ◌≢◌, refl, ap, ◌∙◌, Bool, true, false, ◌||◌, List, [], ◌∷◌, ◌++◌, Bool-cases, inl,
  inr, Option, none, some, arith, ◌==◌, is_empty, if◌then◌else◌, not, ◌&&◌,
}
use qing_stor_c_sdk.Prelude.Int.{pos, ◌≤ℤ◌}
use qing_stor_c_sdk.Errors.{ok}
use qing_stor_c_sdk.Common.Header.{HeaderContent}
use qing_stor_c_sdk.Common.Signature.{Crypto}
use qing_stor_c_sdk.Common.Url.{UrlParser, resource}
use qing_stor_c_sdk.Fetcher.{
  Fetcher, failed, done, null, handle, Release, multi_remove, easy_cleanup, slist_free, cleanup,
  fail, finish, CurlCode, curle_ok, operation_timedout, curle_error, handle_result,
}
use qing_stor_c_sdk.Fetcher.Stream.{unread}
use qing_stor_c_sdk.Fetcher.Start.{Answers, start}
use qing_stor_c_sdk.Common.Signature.Laws.{data_lines}
use qing_stor_c_sdk.Fetcher.Resume.{InOrder, range_request, start-Started}

-- A response that ends the transfer well: HTTP 200 or 206.
abbrev pub succeeds : CurlCode → Option ℕ → Bool
succeeds curle_ok (some code) = code == 200 || code == 206
succeeds _ _ = false

-- What a reported result leaves of a fetcher: everything that curl held for it is released, once
-- each; what has arrived stays; and it is done or failed.
pub record Ended (f : Fetcher) (good : Bool) (h : ℕ) (out : Fetcher × List Release) : Type 0 where
  pub released : out.1 ≡ multi_remove h ∷ easy_cleanup h ∷ slist_free ∷ []
  pub detached : (out.0.curl ≡ null) × (out.0.parent ≡ false) × (out.0.http_headers ≡ none)
  pub kept :
      (unread out.0 ≡ unread f) × (out.0.bytes_done ≡ f.bytes_done) × (out.0.headers ≡ f.headers)
  pub state : out.0.state ≡ (if good then done else failed)
  pub failures : out.0.nfailures ≡ (if good then f.nfailures else f.nfailures + 1)

-- A running fetcher with the handle `h`, attached and with its headers passed.
pub record IsRunning (f : Fetcher) (h : ℕ) : Type 0 where
  pub handled : f.curl ≡ handle h
  pub attached : f.parent ≡ true
  pub passed : (hs : HeaderContent) × (f.http_headers ≡ some hs)

-- A response code could be read, and is not 0.
abbrev pub Reported : CurlCode → Option ℕ → Type 0
Reported curle_ok none = ⊥
Reported curle_ok (some code) = code ≢ 0
Reported operation_timedout code = Unit
Reported (curle_error n) code = Unit

abbrev cleaned : Fetcher → Fetcher
cleaned f = record f { curl = null; parent = false; http_headers = none }

module _ (f : Fetcher) (h : ℕ) (r : IsRunning f h) where
  cleanup-running : cleanup f ≡ ok (cleaned f, multi_remove h ∷ easy_cleanup h ∷ slist_free ∷ [])
  unfolding cleanup
  cleanup-running = rw (r.handled, r.attached, r.passed.1, cleanup)

  fail-Ended : (out : Fetcher × List Release) × (fail f ≡ ok out) × Ended f false h out
  unfolding fail
  fail-Ended = (
    (
      record (cleaned f) { state = failed; nfailures = f.nfailures + 1 },
      multi_remove h ∷ easy_cleanup h ∷ slist_free ∷ [],
    ),
    rw (cleanup-running, fail),
    record {
      released = refl;
      detached = (refl, refl, refl);
      kept = (refl, refl, refl);
      state = refl;
      failures = refl;
    },
  )

  finish-Ended : (out : Fetcher × List Release) × (finish f ≡ ok out) × Ended f true h out
  unfolding finish
  finish-Ended = (
    (record (cleaned f) { state = done }, multi_remove h ∷ easy_cleanup h ∷ slist_free ∷ []),
    rw (cleanup-running, finish),
    record {
      released = refl;
      detached = (refl, refl, refl);
      kept = (refl, refl, refl);
      state = refl;
      failures = refl;
    },
  )

  -- Every result that curl reports for a running fetcher, with a response code that could be read
  -- and is not 0, ends it: the handle leaves the multi handle and is cleaned up, the header list is
  -- freed, each once; the unread bytes and the count of bytes stay; a 200 or 206 makes it done, and
  -- all else makes it failed with one failure more.
  pub handle_result-Ended :
      (res : CurlCode) (code : Option ℕ)
      → Reported res code
      → (out : Fetcher × List Release) × (handle_result res code f ≡ ok out)
        × Ended f (succeeds res code) h out
  unfolding handle_result
  handle_result-Ended curle_ok none p = absurd p
  handle_result-Ended curle_ok (some code) p =
      let nz : (code == 0) ≡ false = ground arith in
      elim (Bool-cases (code == 200 || code == 206)) [
        | inl e ↦
            let (out, q, d) = finish-Ended in
            let t : (not (code == 200) && not (code == 206)) ≡ false = ground arith in
            (out, rw (r.handled, handle_result) (rw (nz, t) q), rw e d)
        | inr e ↦
            let (out, q, d) = fail-Ended in
            let t : (not (code == 200) && not (code == 206)) ≡ true = ground arith in
            (out, rw (r.handled, handle_result) (rw (nz, t) q), rw e d)
      ]
  handle_result-Ended operation_timedout code p =
      let (out, q, d) = fail-Ended in (out, rw (r.handled, handle_result) q, d)
  handle_result-Ended (curle_error n) code p =
      let (out, q, d) = fail-Ended in (out, rw (r.handled, handle_result) q, d)

headers-handle_result :
    (res : CurlCode) (code : Option ℕ) (f f' : Fetcher) (rel : List Release)
    → handle_result res code f ≡ ok (f', rel)
    → f'.headers ≡ f.headers
unfolding handle_result fail finish cleanup
headers-handle_result res code f f' rel e = ground arith

-- Headers pile up over a retry: after a start, a reported result and a second start the request
-- holds the Host and Range of the first start, and then the Host and Range of the second.
pub restart_keeps_old_range :
    (crypto : Crypto) (scan : UrlParser) (max_write : ℕ) (a b : Answers) (res : CurlCode)
    (code : Option ℕ) (f f₁ f₂ f₃ : Fetcher) (rel : List Release)
    → InOrder f × (pos 0 ≤ℤ f.len) × (is_empty f.host ≡ false)
    → InOrder f₂ × (pos 0 ≤ℤ f₂.len) × (is_empty f₂.host ≡ false)
    → start crypto scan max_write a f ≡ (ok tt, f₁)
    → handle_result res code f₁ ≡ ok (f₂, rel)
    → start crypto scan max_write b f₂ ≡ (ok tt, f₃)
    → (signed rest : HeaderContent) × (f₃.headers
        ≡ (((f.headers ++ range_request f) ++ signed) ++ range_request f₂) ++ rest)
restart_keeps_old_range crypto scan max_write a b res code f f₁ f₂ f₃ rel v w e₁ e₂ e₃ =
    let s = start-Started crypto scan max_write a f v.0 v.1 v.2 e₁ in
    let t = start-Started crypto scan max_write b f₂ w.0 w.1 w.2 e₃ in
    let h = headers-handle_result res code f₁ f₂ rel e₂ in
    let signed = data_lines crypto (resource (some f.bucket) s.sent.0) f.cred a.timebuf in
    let rest = data_lines crypto (resource (some f₂.bucket) t.sent.0) f₂.cred b.timebuf in
    (signed, rest, t.sent.2 ∙ ap (λ l. (l ++ range_request f₂) ++ rest) (h ∙ s.sent.2))
