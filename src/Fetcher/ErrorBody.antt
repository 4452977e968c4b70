-- ===== src/Fetcher/ErrorBody.antt =====
-- The body of an error response (src/HTTPFetcher.cpp): `WriterCallback` does not look at the
-- response code, and `handleResult` leaves the buffer.
use qing_stor_c_sdk.Prelude.{
  ℕ, ◌≤◌, ◌≡◌, ◌≢◌, refl, sym, ap, ◌∙◌, false, ◌++◌, [], Bytes, length, take, inl, inr, some, arith,
  min, List,
}
use mathlib.Core.Path.{subst}
use qing_stor_c_sdk.Prelude.Int.{pos, ◌+ℤ◌}
use qing_stor_c_sdk.Prelude.Slices.{take_front}
use qing_stor_c_sdk.Errors.{ok}
use qing_stor_c_sdk.Fetcher.{
  Fetcher, failed, Release, curle_ok, writer_callback, handle_result, get,
}
use qing_stor_c_sdk.Fetcher.Start.{resume_offset, left_over}
use qing_stor_c_sdk.Fetcher.Stream.{unread, length-unread, IsFetcher, writer_callback-Wrote}
use qing_stor_c_sdk.Fetcher.Stream.Session.{get-Read}
use qing_stor_c_sdk.Fetcher.Life.{IsRunning, succeeds, handle_result-Ended}
use qing_stor_c_sdk.Fetcher.Content.Moves.{
  IsFetcher-same, SameBuffer-Same8, EndedSame, handle_result-EndedSame,
}

writer_callback-parts :
    (c : Bytes) (f : Fetcher)
    → ((writer_callback c f).1.parent ≡ f.parent)
      × ((writer_callback c f).1.http_headers ≡ f.http_headers)
unfolding writer_callback
writer_callback-parts c f = ground arith

writer_callback-IsRunning :
    (c : Bytes) (f : Fetcher) (h : ℕ)
    → IsFetcher f
    → IsRunning f h
    → IsRunning (writer_callback c f).1 h
writer_callback-IsRunning c f h v r =
    let w = writer_callback-Wrote f c v in
    let (parent, passed) = writer_callback-parts c f in
    record {
      handled = w.same.5 ∙ r.handled;
      attached = parent ∙ r.attached;
      passed = (r.passed.0, passed ∙ r.passed.1);
    }

get-take :
    (f : Fetcher) (n : ℕ) (c : Bytes) → IsFetcher f → unread f ≡ c → (get [] n f).0.bytes ≡ take n c
get-take f n c v e =
    let r = get-Read f n v in
    let all : (get [] n f).0.bytes ++ unread (get [] n f).1 ≡ c = r.bytes ∙ e in
    sym (
      ap (λ t. take n t) (sym all)
      ∙ take_front (get [] n f).0.bytes (unread (get [] n f).1) n
          (r.count ∙ ap (λ t. min n (length t)) (sym r.bytes)))

left_over-unread : (f : Fetcher) → IsFetcher f → left_over f ≡ length (unread f)
left_over-unread f v = omega (arith, length-unread f v, v.order, v.inside, v.small)

-- What the body `c` of a response with an error code comes to.
pub record HandsBody (f : Fetcher) (c : Bytes) (n : ℕ) (out : Fetcher × List Release) : Type 0 where
  pub over : out.0.state ≡ failed
  pub handed : (get [] n out.0).0.bytes ≡ take n c
  pub skipped : resume_offset out.0 ≡ f.offset +ℤ pos (length c) +ℤ pos f.bytes_done

-- The body of an error response is handed out as bytes of the object. When a chunk that the buffer
-- has room for comes to a running fetcher with nothing unread, and the response code is then not 0,
-- 200 or 206, the fetcher has failed; but the next call of `get` hands out the first bytes of the
-- chunk, and if the fetcher is started again before that, it asks for a range that begins behind as
-- many bytes as the chunk has.
pub handle_result-HandsBody :
    (f : Fetcher) (h n : ℕ) (c : Bytes) (code : ℕ)
    → IsFetcher f
    → IsRunning f h
    → unread f ≡ []
    → length c ≤ f.buff_size
    → code ≢ 0
    → succeeds curle_ok (some code) ≡ false
    → (out : Fetcher × List Release) × (handle_result curle_ok (some code) (writer_callback c f).1
        ≡ ok out)
      × HandsBody f c n out
handle_result-HandsBody f h n c code v r none_held room nz bad =
    let w = writer_callback-Wrote f c v in
    let g = (writer_callback c f).1 in
    let (out, e, d) =
      handle_result-Ended g h (writer_callback-IsRunning c f h v r) curle_ok (some code) nz in
    let same =
      SameBuffer-Same8 g out.0
        (subst (EndedSame g) e (handle_result-EndedSame curle_ok (some code) g)) in
    let v' = IsFetcher-same g out.0 same w.valid in
    let held : unread g ≡ c = elim w.reply [
      | inl (_, b) ↦ b ∙ ap (λ t. t ++ c) none_held
      | inr (_, _, _, full) ↦ absurd (omega (arith, full, room, ap length none_held))
    ] in
    let held' : unread out.0 ≡ c = d.kept.0 ∙ held in
    (
      out,
      e,
      record {
        over = d.state ∙ rw bad refl;
        handed = get-take out.0 n c v' held';
        skipped =
            rw (same.offset, same.bytes_done, w.same.3, w.same.1, left_over-unread out.0 v', held')
              refl;
      },
    )
