-- ===== src/Writer/Fill.antt =====
-- The loop that fills the buffer in `transferData` (src/QingStorWriter.cpp), in closed form.
use qing_stor_c_sdk.Prelude.{
  ℕ, suc, ◌+◌, ◌-◌, ◌≤◌, ◌<◌, ◌^◌, ◌≡◌, refl, false, sym, ap, ◌∙◌, true, false, Bool-cases, inl,
  inr, [], ◌∷◌, ◌++◌, Bytes, take, drop, length, ◌==◌, some, arith, append_assoc, append-nil,
  length-append, ap₂,
}
use qing_stor_c_sdk.Prelude.Slices.{take_all, take-nil, drop-nil}
use qing_stor_c_sdk.Errors.{ok}
use qing_stor_c_sdk.Writer.{Writer, fill, put_byte, held}

-- A caching writer whose buffer holds the bytes below `write_pos`, and no more than it has room for.
pub record IsBuffered (w : Writer) : Type 0 where
  pub caches : w.cache ≡ true
  pub buffered : w.buffer ≡ some (held w)
  pub counted : length (held w) ≡ w.write_pos
  pub inside : w.write_pos ≤ w.buff_size
  pub room : 1 ≤ w.buff_size

-- The same, with a buffer whose size is an `int32_t`.
pub record IsWriter (w : Writer) : Type 0 where
  pub caches : w.cache ≡ true
  pub buffered : w.buffer ≡ some (held w)
  pub counted : length (held w) ≡ w.write_pos
  pub inside : w.write_pos ≤ w.buff_size
  pub room : 1 ≤ w.buff_size
  pub small : w.buff_size < 2 ^ 31

pub IsWriter-IsBuffered : (w : Writer) → IsWriter w → IsBuffered w
IsWriter-IsBuffered w v = record {
  caches = v.caches;
  buffered = v.buffered;
  counted = v.counted;
  inside = v.inside;
  room = v.room;
}

-- A writer as the constructor leaves it, with a buffer.
pub record IsFresh (w : Writer) : Type 0 where
  pub valid : IsWriter w
  pub nothing_held : held w ≡ []
  pub no_part : w.part_num ≡ 0
  pub not_canceled : w.canceled ≡ false

-- A new buffer.
abbrev pub with_buffer : Writer → Bytes → ℕ → Writer
with_buffer w b n = record w { buffer = some b; write_pos = n }

pub with_buffer_same :
    (w : Writer) → w.buffer ≡ some (held w) → w ≡ with_buffer w (held w) w.write_pos
with_buffer_same w h = ap (λ b. record w { buffer = b }) h

abbrev pub filled : Writer → Bytes → Writer
filled w taken = with_buffer w (held w ++ taken) (w.write_pos + length taken)

filled-nil : (w : Writer) → IsBuffered w → w ≡ filled w []
filled-nil w h =
    with_buffer_same w h.buffered ∙ ap₂ (with_buffer w) (sym (append-nil (held w))) (omega arith)

filled-filled : (w : Writer) (xs ys : Bytes) → filled (filled w xs) ys ≡ filled w (xs ++ ys)
filled-filled w xs ys =
    ap₂ (with_buffer w) (append_assoc (held w) xs ys) (omega (arith, length-append xs ys))

put_byte_lem :
    (c : ℕ) (w : Writer) (b : Bytes)
    → w.buffer ≡ some b
    → length b ≡ w.write_pos
    → put_byte c w ≡ ok (with_buffer w (b ++ (c ∷ [])) (suc w.write_pos))
put_byte_lem c w b e n = rw (e, take_all b w.write_pos (omega arith)) refl

put_byte-filled : (c : ℕ) (w : Writer) → IsBuffered w → put_byte c w ≡ ok (filled w (c ∷ []))
put_byte-filled c w h =
    put_byte_lem c w (held w) h.buffered h.counted
    ∙ ap (λ n. ok (with_buffer w (held w ++ (c ∷ [])) n)) (omega arith)

filled-IsBuffered :
    (w : Writer) (taken : Bytes)
    → IsBuffered w
    → w.write_pos + length taken ≤ w.buff_size
    → IsBuffered (filled w taken)
filled-IsBuffered w taken h fits = record {
  caches = h.caches;
  buffered = refl;
  counted = rw (length-append, h.counted) refl;
  inside = fits;
  room = h.room;
}

pub filled-IsWriter :
    (w : Writer) (taken : Bytes)
    → IsWriter w
    → w.write_pos + length taken ≤ w.buff_size
    → IsWriter (filled w taken)
filled-IsWriter w taken h fits =
    let b = filled-IsBuffered w taken (IsWriter-IsBuffered w h) fits in
    record {
      caches = b.caches;
      buffered = b.buffered;
      counted = b.counted;
      inside = b.inside;
      room = b.room;
      small = h.small;
    }

-- A buffer that has gone out.
pub emptied-IsWriter :
    (w : Writer)
    → IsWriter w
    → IsWriter (record w { part_num = suc w.part_num; write_pos = 0; buffer = some [] })
emptied-IsWriter w h = record {
  caches = h.caches;
  buffered = refl;
  counted = refl;
  inside = omega arith;
  room = h.room;
  small = h.small;
}

-- The loop that fills the buffer byte by byte does what one copy would: of a well-formed writer with
-- a buffer it puts as many bytes of the text as there is room for behind those that are held, and
-- leaves the others to the caller.
pub fill_lem :
    (text : Bytes) (w : Writer)
    → IsBuffered w
    → fill text w
      ≡ ok (drop (w.buff_size - w.write_pos) text, filled w (take (w.buff_size - w.write_pos) text))
unfolding fill
fill_lem [] w h = rw (take-nil, drop-nil) (ap (λ w'. ok ([], w')) (filled-nil w h))
fill_lem (c ∷ cs) w h = elim (Bool-cases (w.write_pos == w.buff_size)) [
  | inl e ↦
      let n : w.buff_size - w.write_pos ≡ 0 = ground arith in
      rw (e, n) (ap (λ w'. ok (c ∷ cs, w')) (filled-nil w h))
  | inr e ↦
      let n : w.buff_size - w.write_pos ≡ suc (w.buff_size - (w.write_pos + 1)) =
        ground (arith, h.inside) in
      let h' = filled-IsBuffered w (c ∷ []) h (ground (arith, h.inside)) in
      rw (e, put_byte-filled c w h, n)
        (fill_lem cs (filled w (c ∷ [])) h'
          ∙ ap (λ w'. ok (drop (w.buff_size - (w.write_pos + 1)) cs, w'))
              (filled-filled w (c ∷ []) _))
]
