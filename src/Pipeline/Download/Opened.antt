-- ===== src/Pipeline/Download/Opened.antt =====
-- The fetchers that `setupPipeline` (src/QingStorReader.cpp) makes, and the bytes of the object they
-- are there for.
use qing_stor_c_sdk.Prelude.{
  ℕ, zero, suc, ◌+◌, ◌-◌, ◌^◌, ◌<◌, ◌≡◌, refl, sym, ap, ◌∙◌, inl, List, [], ◌∷◌, ◌++◌, map, Bytes,
  take, drop, arith,
}
use qing_stor_c_sdk.Prelude.Slices.{drop-drop, take-nil}
use qing_stor_c_sdk.Prelude.Int.{ℤ, pos, pos_part, neg_part, ◌+ℤ◌, ◌-ℤ◌, ◌≤ℤ◌, to_int, int_laws}
use qing_stor_c_sdk.Config.{Configuration}
use qing_stor_c_sdk.Fetcher.Content.{due, IsSound}
use qing_stor_c_sdk.Reader.{ObjectInfo, chunk_sizes, chunk_fetcher}
use qing_stor_c_sdk.Reader.Plan.{Tiles}
use qing_stor_c_sdk.Pipeline.Content.{AllSound, dues}

take-add : (m n : ℕ) (xs : Bytes) → take (m + n) xs ≡ take m xs ++ take n (drop m xs)
take-add zero n xs = ap (λ k. take k xs) (omega arith)
take-add (suc m) n [] = take-nil (suc m + n) ∙ sym (take-nil n)
take-add (suc m) n (x ∷ xs) =
    let e : suc m + n ≡ suc (m + n) = omega arith in rw e (ap (λ l. x ∷ l) (take-add m n xs))

-- An integer that is not negative.
pos_part_of : (a : ℤ) (n : ℕ) → pos_part a ≡ n + neg_part a → pos_part a ≡ n
pos_part_of a n e = ground (arith, e)

neg_part_of : (a : ℤ) → pos 0 ≤ℤ a → neg_part a ≡ 0
neg_part_of a le = ground (arith, le)

chunk_sizes-small : (c : Configuration) → pos_part (chunk_sizes c).1 < 2 ^ 63
unfolding chunk_sizes
chunk_sizes-small c = ground arith

to_int_same : (z : ℤ) → pos 1 ≤ℤ z → z ≤ℤ pos (2 ^ 31 - 1) → pos_part (to_int z) ≡ pos_part z
to_int_same z low high = ground (arith, low, high)

-- The bytes of the object from `start` to `end`.
abbrev pub between : Bytes → ℤ → ℤ → Bytes
between object start end = take (pos_part (end -ℤ start +ℤ pos 1)) (drop (pos_part start) object)

Tiles-order :
    (chunk start end : ℤ) (l : List (ℤ × ℤ)) → Tiles chunk start end l → start ≤ℤ end +ℤ pos 1
Tiles-order chunk start end [] t = omega (int_laws, ap pos_part t, ap neg_part t)
Tiles-order chunk start end ((offset, len) ∷ l) (o, low, high, t) =
    let le = Tiles-order chunk (start +ℤ len) end l t in omega (int_laws, le, low)

module _ (object : Bytes) (c : Configuration) (bucket : Bytes) (info : ObjectInfo) where
  chunk_fetcher-IsSound : (s : ℤ × ℤ) → IsSound object (chunk_fetcher c bucket info s)
  unfolding chunk_fetcher
  chunk_fetcher-IsSound (offset, len) = record {
    ready = inl (record {
      no_array = refl;
      none_used = refl;
      none_read = refl;
      not_paused = refl;
      no_handle = refl;
    });
    sized = chunk_sizes-small c;
    next = (due object (chunk_fetcher c bucket info (offset, len)), refl);
    complete = λ d. absurd cc;
  }

  pub chunk_fetchers-AllSound :
      (l : List (ℤ × ℤ)) → AllSound object (map (chunk_fetcher c bucket info) l)
  chunk_fetchers-AllSound [] = tt
  chunk_fetchers-AllSound (s ∷ l) = (chunk_fetcher-IsSound s, chunk_fetchers-AllSound l)

  chunk_fetcher-due :
      (offset len : ℤ)
      → pos 1 ≤ℤ len
      → len ≤ℤ pos (2 ^ 31 - 1)
      → due object (chunk_fetcher c bucket info (offset, len))
        ≡ take (pos_part len) (drop (pos_part offset) object)
  unfolding chunk_fetcher
  chunk_fetcher-due offset len low high =
      ap (λ n. take n (drop (pos_part offset) object)) (to_int_same len low high)

  -- Fetchers for chunks that cover a range are there for the bytes of the range.
  pub chunk_fetchers-dues :
      (chunk start end : ℤ) (l : List (ℤ × ℤ))
      → chunk ≤ℤ pos (2 ^ 31 - 1)
      → pos 0 ≤ℤ start
      → Tiles chunk start end l
      → dues object (map (chunk_fetcher c bucket info) l) ≡ between object start end
  chunk_fetchers-dues chunk start end [] high low t =
      let z : pos_part (end -ℤ start +ℤ pos 1) ≡ 0 =
        pos_part_of (end -ℤ start +ℤ pos 1) 0 (omega (int_laws, ap pos_part t, ap neg_part t)) in
      rw z refl
  chunk_fetchers-dues chunk start end ((offset, len) ∷ l) high low (o, one, le, t) =
      let later =
        chunk_fetchers-dues chunk (start +ℤ len) end l high (omega (int_laws, low, one)) t in
      let order = Tiles-order chunk (start +ℤ len) end l t in
      let z = neg_part_of start low in
      let z' = neg_part_of len (omega (arith, one)) in
      let at : pos_part (start +ℤ len) ≡ pos_part start + pos_part len =
        pos_part_of (start +ℤ len) (pos_part start + pos_part len) (omega (int_laws, z, z')) in
      let n = pos_part (end -ℤ (start +ℤ len) +ℤ pos 1) in
      let z'' = neg_part_of (end -ℤ (start +ℤ len) +ℤ pos 1) (omega (int_laws, order)) in
      let size : pos_part (end -ℤ start +ℤ pos 1) ≡ pos_part len + n =
        pos_part_of (end -ℤ start +ℤ pos 1) (pos_part len + n) (omega (int_laws, z, z', z'')) in
      let here = chunk_fetcher-due offset len one (omega (int_laws, le, high)) in
      let rest = drop (pos_part start) object in
      rw (here, later, o, size, at)
        (rw (take-add (pos_part len) n rest, drop-drop (pos_part start) (pos_part len) object) refl)
