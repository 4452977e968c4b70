-- ===== src/Fetcher/Stream.antt =====
-- The buffer of `HTTPFetcher` (src/HTTPFetcher.cpp) is a queue: the write callback appends, `get`
-- takes from the front, and neither leaves the array.
pub mod Session
use qing_stor_c_sdk.Prelude.{
  ℕ, zero, suc, ◌+◌, ◌-◌, ◌%◌, ◌^◌, ◌≤◌, ◌<◌, ◌≡◌, refl, sym, ap, ◌∙◌, Bool, true, false, List, [],
  ◌∷◌, ◌++◌, append-nil, append_assoc, Bytes, length, length-append, take, drop, length-drop, ltb,
  ◌==◌, not, ◌&&◌, if◌then◌else◌, Bool-cases, ◌⊎◌, inl, inr, Option, none, some, arith, min,
}
use qing_stor_c_sdk.Prelude.Slices.{
  take_exact, drop-append_le, drop-take, take-append-take, drop-drop, length-take_le,
}
use qing_stor_c_sdk.Fetcher.{
  Fetcher, buffer, slice, copy_in, sub_size, rewind, shift, store, fits, store_or_pause, WriteReply,
  taken, pause, writer_callback, deliver, Got, avail, get_available, nothing, get, at_end,
}

-- The bytes that are received and not handed out.
abbrev pub unread : Fetcher → Bytes
unread f = slice (buffer f) f.read_off (f.nused - f.read_off)

-- A fetcher that has its array: the two marks lie in order inside it.
pub record IsFetcher (f : Fetcher) : Type 0 where
  pub array : f.read_buff ≡ some (buffer f)
  pub sized : length (buffer f) ≡ f.buff_size
  pub order : f.read_off ≤ f.nused
  pub inside : f.nused ≤ f.buff_size
  pub small : f.buff_size < 2 ^ 63

-- Bytes written behind the valid ones, with the rest of the array behind them.
slice-store :
    (buf c : Bytes) (from till : ℕ)
    → from ≤ till
    → till + length c ≤ length buf
    → slice (copy_in buf till c) from (till + length c - from) ≡ slice buf from (till - from) ++ c
slice-store buf c from till le fit =
    let front : Bytes = take till buf in
    let back : Bytes = drop (till + length c) buf in
    let len : length front ≡ till = length-take_le till buf (omega arith) in
    let len' : length (drop from front) ≡ till - from =
      omega (arith, len, length-drop from front) in
    rw (drop-append_le from front (c ++ back) (omega (arith, len)), ← append_assoc)
      (take_exact (drop from front ++ c) back (till + length c - from)
          (omega (arith, length-append (drop from front) c, len'))
        ∙ ap (λ l. l ++ c) (drop-take from till buf))

length-copy_in :
    (buf src : Bytes) (off : ℕ)
    → off + length src ≤ length buf
    → length (copy_in buf off src) ≡ length buf
length-copy_in buf src off fit = omega (
  arith,
  length-append (take off buf) (src ++ drop (off + length src) buf),
  length-append src (drop (off + length src) buf),
  length-take_le off buf (omega arith),
  length-drop (off + length src) buf,
)

-- The valid bytes, moved to the front.
slice-shift : (buf src : Bytes) (n : ℕ) → n ≡ length src → slice (copy_in buf 0 src) 0 n ≡ src
slice-shift buf src n e = take_exact src (drop (0 + length src) buf) n e

-- The bytes of a slice, the first `n` and the others.
slice_split :
    (buf : Bytes) (from n len : ℕ)
    → n ≤ len
    → slice buf from n ++ slice buf (from + n) (len - n) ≡ slice buf from len
slice_split buf from n len le =
    rw (← drop-drop from n buf) (
      take-append-take n (len - n) (drop from buf) ∙ ap (λ k. take k (drop from buf)) (omega arith))

-- What the callback leaves alone: the size, the bytes done, the state, the range, the handle.
abbrev pub Same : Fetcher → Fetcher → Type 0
Same f f' =
    (f'.buff_size ≡ f.buff_size)
    × (f'.bytes_done ≡ f.bytes_done)
    × (f'.state ≡ f.state)
    × (f'.offset ≡ f.offset)
    × (f'.len ≡ f.len)
    × (f'.curl ≡ f.curl)

-- The same bytes, perhaps elsewhere in the array.
record Kept (f f' : Fetcher) : Type 0 where
  valid : IsFetcher f'
  bytes : unread f' ≡ unread f
  same : Same f f'

Same-refl : (f : Fetcher) → Same f f
Same-refl f = (refl, refl, refl, refl, refl, refl)

Same-trans : (f g h : Fetcher) → Same f g → Same g h → Same f h
Same-trans f g h p q = (q.0 ∙ p.0, q.1 ∙ p.1, q.2 ∙ p.2, q.3 ∙ p.3, q.4 ∙ p.4, q.5 ∙ p.5)

Kept-refl : (f : Fetcher) → IsFetcher f → Kept f f
Kept-refl f v = record { valid = v; bytes = refl; same = Same-refl f }

rewind-Kept : (f : Fetcher) → IsFetcher f → Kept f (rewind f)
rewind-Kept f v = elim (Bool-cases (f.nused == f.read_off)) [
  | inl e ↦ rw e (record {
    valid = record {
      array = v.array;
      sized = v.sized;
      order = omega arith;
      inside = omega arith;
      small = v.small;
    };
    bytes = let z : f.nused - f.read_off ≡ 0 = ground arith in rw z;
    same = Same-refl f;
  })
  | inr e ↦ rw e (Kept-refl f v)
]

pub length-unread : (f : Fetcher) → IsFetcher f → length (unread f) ≡ f.nused - f.read_off
length-unread f v =
    length-take_le (f.nused - f.read_off) (drop f.read_off (buffer f))
      (omega (arith, v.order, v.inside, v.sized, length-drop f.read_off (buffer f)))

shift-Kept : (f : Fetcher) → IsFetcher f → Kept f (shift f)
shift-Kept f v = elim (Bool-cases (ltb 0 f.read_off)) [
  | inl e ↦ rw e (record {
    valid = record {
      array = refl;
      sized =
          length-copy_in (buffer f) (unread f) 0
            (omega (arith, v.inside, v.sized, length-unread f v))
          ∙ v.sized;
      order = omega arith;
      inside = omega (arith, v.inside);
      small = v.small;
    };
    bytes =
        slice-shift (buffer f) (unread f) (f.nused - f.read_off - 0)
          (omega (arith, length-unread f v));
    same = Same-refl f;
  })
  | inr e ↦ rw e (Kept-refl f v)
]

-- A chunk that fits, behind the valid bytes.
record Stored (f f' : Fetcher) (c : Bytes) : Type 0 where
  valid : IsFetcher f'
  bytes : unread f' ≡ unread f ++ c
  same : Same f f'

fits_bound :
    (f : Fetcher) (c : Bytes) → IsFetcher f → fits f c ≡ true → f.nused + length c ≤ f.buff_size
fits_bound f c v e = ground arith

fits-false :
    (f : Fetcher) (c : Bytes) → IsFetcher f → fits f c ≡ false → f.buff_size < f.nused + length c
fits-false f c v e = ground arith

store-Stored : (f : Fetcher) (c : Bytes) → IsFetcher f → fits f c ≡ true → Stored f (store f c) c
store-Stored f c v e =
    let room : f.nused + length c ≤ f.buff_size = fits_bound f c v e in
    record {
      valid = record {
        array = refl;
        sized = length-copy_in (buffer f) c f.nused (omega (arith, v.sized)) ∙ v.sized;
        order = omega (arith, v.order);
        inside = room;
        small = v.small;
      };
      bytes = slice-store (buffer f) c f.read_off f.nused v.order (omega (arith, v.sized));
      same = Same-refl f;
    }

-- What a call of the callback comes to.
pub record Wrote (f : Fetcher) (c : Bytes) (out : WriteReply × Fetcher) : Type 0 where
  pub valid : IsFetcher out.1
  pub same : Same f out.1
  pub reply :
      ((out.0 ≡ taken (length c)) × (unread out.1 ≡ unread f ++ c))
      ⊎ ((out.0 ≡ pause)
          × (unread out.1 ≡ unread f)
          × (out.1.paused ≡ true)
          × (f.buff_size < length (unread f) + length c))

store_or_pause-Wrote :
    (f g : Fetcher) (c : Bytes)
    → Kept f g
    → ((fits g c ≡ false) → g.nused ≡ length (unread g))
    → Wrote f c (store_or_pause g c)
store_or_pause-Wrote f g c k front = elim (Bool-cases (fits g c)) [
  | inl e ↦
      let s = store-Stored g c k.valid e in
      rw e (record {
        valid = s.valid;
        same = Same-trans f g (store g c) k.same s.same;
        reply = inl (refl, s.bytes ∙ ap (λ l. l ++ c) k.bytes);
      })
  | inr e ↦ rw e (record {
    valid = record {
      array = k.valid.array;
      sized = k.valid.sized;
      order = k.valid.order;
      inside = k.valid.inside;
      small = k.valid.small;
    };
    same = k.same;
    reply = inr (
      refl,
      k.bytes,
      refl,
      omega (arith, fits-false g c k.valid e, k.same.0, front e, ap length k.bytes),
    );
  })
]

Kept-trans : (f g h : Fetcher) → Kept f g → Kept g h → Kept f h
Kept-trans f g h p q = record {
  valid = q.valid;
  bytes = q.bytes ∙ p.bytes;
  same = Same-trans f g h p.same q.same;
}

read_off-shift : (f : Fetcher) → (shift f).read_off ≡ 0
read_off-shift f = ground arith

-- The write callback appends the chunk to the unread bytes and takes all of it, or pauses the
-- transfer and keeps the unread bytes as they are; it pauses only if the unread bytes and the chunk
-- together are larger than the buffer. Either way it stays inside the array.
pub writer_callback-Wrote :
    (f : Fetcher) (c : Bytes) → IsFetcher f → Wrote f c (writer_callback c f)
unfolding writer_callback
writer_callback-Wrote f c v =
    let k = rewind-Kept f v in
    let k' = Kept-trans f (rewind f) (shift (rewind f)) k (shift-Kept (rewind f) k.valid) in
    elim (Bool-cases (fits (rewind f) c)) [
      | inl e ↦
          let s = store-Stored (rewind f) c k.valid e in
          rw (e, writer_callback)
            (record {
              valid = s.valid;
              same = Same-trans f (rewind f) (store (rewind f) c) k.same s.same;
              reply = inl (refl, s.bytes ∙ ap (λ l. l ++ c) k.bytes);
            })
      | inr e ↦
          rw (e, writer_callback)
            (store_or_pause-Wrote f (shift (rewind f)) c k' λ _.
              omega (arith, length-unread (shift (rewind f)) k'.valid, read_off-shift (rewind f)))
    ]
