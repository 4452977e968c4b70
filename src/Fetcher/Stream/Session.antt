-- ===== src/Fetcher/Stream/Session.antt =====
-- Calls of the write callback and of `get` (src/HTTPFetcher.cpp) in any order: what came in, what
-- went out, and what is still in the buffer.
use qing_stor_c_sdk.Prelude.{
  ℕ, ◌+◌, ◌-◌, ◌≤◌, ◌≡◌, refl, sym, ap, ◌∙◌, true, false, List, [], ◌∷◌, ◌++◌, append-nil,
  append_assoc, Bytes, length, length-append, drop, length-drop, ltb, Bool-cases, inl, inr, arith,
  min,
}
use qing_stor_c_sdk.Prelude.Slices.{length-take_le}
use qing_stor_c_sdk.Fetcher.{
  Fetcher, buffer, slice, WriteReply, taken, pause, writer_callback, Got, avail, get_available,
  nothing, get, at_end,
}
use qing_stor_c_sdk.Fetcher.Stream.{
  unread, IsFetcher, slice_split, length-unread, writer_callback-Wrote,
}

-- What one call of `get` with no byte arriving in between comes to.
pub record Read (f : Fetcher) (bufflen : ℕ) (out : Got × Fetcher) : Type 0 where
  pub valid : IsFetcher out.1
  pub bytes : out.0.bytes ++ unread out.1 ≡ unread f
  pub count : length out.0.bytes ≡ min bufflen (length (unread f))
  pub progress : out.1.bytes_done ≡ f.bytes_done + length out.0.bytes
  pub end : (out.0.eof ≡ true) → (unread f ≡ []) × (at_end f.state ≡ true)

avail-le : (f : Fetcher) (n : ℕ) → avail f n ≤ f.nused - f.read_off
avail-le f n = ground arith

avail-eq-min : (f : Fetcher) (n : ℕ) → avail f n ≡ min n (f.nused - f.read_off)
avail-eq-min f n = ground arith

pub available-Read :
    (f : Fetcher) (n : ℕ)
    → IsFetcher f
    → Read f n (
      record { bytes = slice (buffer f) f.read_off (avail f n); eof = false },
      record f { read_off = f.read_off + avail f n; bytes_done = f.bytes_done + avail f n },
    )
available-Read f n v =
    let le = avail-le f n in
    let len : length (slice (buffer f) f.read_off (avail f n)) ≡ avail f n =
      length-take_le (avail f n) (drop f.read_off (buffer f))
        (omega (arith, le, v.inside, v.sized, length-drop f.read_off (buffer f))) in
    let rest : f.nused - (f.read_off + avail f n) ≡ f.nused - f.read_off - avail f n =
      omega arith in
    record {
      valid = record {
        array = v.array;
        sized = v.sized;
        order = omega (arith, le, v.order);
        inside = v.inside;
        small = v.small;
      };
      bytes = rw rest (slice_split (buffer f) f.read_off (avail f n) (f.nused - f.read_off) le);
      count = len ∙ avail-eq-min f n ∙ ap (λ k. min n k) (sym (length-unread f v));
      progress = ap (λ k. f.bytes_done + k) (sym len);
      end = λ h. cc;
    }

pub empty-Read :
    (f : Fetcher) (n : ℕ)
    → IsFetcher f
    → ltb f.read_off f.nused ≡ false
    → Read f n (nothing (record f { paused = false }))
empty-Read f n v e =
    let z : f.nused - f.read_off ≡ 0 = ground arith in
    let none_left : unread f ≡ [] = rw z in
    record {
      valid = record {
        array = v.array;
        sized = v.sized;
        order = v.order;
        inside = v.inside;
        small = v.small;
      };
      bytes = refl;
      count = rw none_left (omega arith);
      progress = omega arith;
      end = λ h. (none_left, h);
    }

-- A call of `get` hands out the first unread bytes, as many as there are up to `bufflen`, counts
-- them in `mBytesDone`, and reports the end only when no byte is left and the transfer is done.
pub get-Read : (f : Fetcher) (n : ℕ) → IsFetcher f → Read f n (get [] n f)
unfolding get get_available
get-Read f n v = elim (Bool-cases (ltb f.read_off f.nused)) [
  | inl e ↦ rw (e, get, get_available) (available-Read f n v)
  | inr e ↦ rw (e, get, get_available) (empty-Read f n v e)
]

pub data Event : Type 0 where
  chunk : Bytes → Event
  ask : ℕ → Event

-- The bytes that curl counts as written.
abbrev pub accepted : WriteReply → Bytes → Bytes
accepted (taken n) c = c
accepted pause c = []

pub record Session : Type 0 where
  pub received : Bytes
  pub handed : Bytes
  pub fetcher : Fetcher

-- The events in turn. A chunk that meets a pause is lost to the fetcher: curl keeps it, and passes
-- it again as a later event.
unfoldable pub session : List Event → Fetcher → Session
session [] f = record { received = []; handed = []; fetcher = f }
session (chunk c ∷ es) f =
    let (reply, f') = writer_callback c f in
    let s = session es f' in record s { received = accepted reply c ++ s.received }
session (ask n ∷ es) f =
    let (got, f') = get [] n f in
    let s = session es f' in record s { handed = got.bytes ++ s.handed }

-- The buffer is a queue. Whatever chunks arrive and whenever the caller reads: the bytes that were
-- unread, followed by those received, are the bytes handed out followed by those still unread; and
-- `mBytesDone` has grown by the number handed out.
pub session_fifo :
    (es : List Event) (f : Fetcher)
    → IsFetcher f
    → (unread f ++ (session es f).received ≡ (session es f).handed ++ unread (session es f).fetcher)
      × ((session es f).fetcher.bytes_done ≡ f.bytes_done + length (session es f).handed)
      × IsFetcher (session es f).fetcher
unfolding session
session_fifo [] f v = (append-nil _, omega arith, v)
session_fifo (chunk c ∷ es) f v =
    let w = writer_callback-Wrote f c v in
    let (fifo, done_, v') = session_fifo es (writer_callback c f).1 w.valid in
    (
      elim w.reply [
        | inl (e, b) ↦ rw e (rw (← append_assoc, ← b) fifo)
        | inr (e, b, _, _) ↦ rw e (rw (← b) fifo)
      ],
      omega (arith, done_, w.same.1),
      v',
    )
session_fifo (ask n ∷ es) f v =
    let r = get-Read f n v in
    let (fifo, done_, v') = session_fifo es (get [] n f).1 r.valid in
    (
      rw (append_assoc, ← fifo, ← r.bytes, append_assoc),
      omega (
        arith,
        done_,
        r.progress,
        length-append (get [] n f).0.bytes (session es (get [] n f).1).handed,
      ),
      v',
    )
