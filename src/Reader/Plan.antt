-- ===== src/Reader/Plan.antt =====
-- The chunks of `QingStorReader::setupPipeline` (src/QingStorReader.cpp) cover the range.
use qing_stor_c_sdk.Prelude.{
  ℕ, zero, suc, ◌≡◌, refl, true, false, Bool-cases, inl, inr, List, [], ◌∷◌, some, arith,
}
use qing_stor_c_sdk.Prelude.Int.{
  ℤ, pos, negsuc, ◌+ℤ◌, ◌≤ℤ◌, ltb_ℤ, eqb_ℤ, int_laws, lt_of_ltb_ℤ, ge_of_ltb_ℤ, ltb_ℤ_of_lt,
}
use qing_stor_c_sdk.Reader.{chunk_len, chunks}

-- Chunks of at most `chunk` bytes, none of them empty, that follow one another from `start` and end
-- with the byte `end`.
abbrev pub Tiles : ℤ → ℤ → ℤ → List (ℤ × ℤ) → Type 0
Tiles chunk start end [] = start ≡ end +ℤ pos 1
Tiles chunk start end ((offset, len) ∷ rest) =
    (offset ≡ start) × (pos 1 ≤ℤ len) × (len ≤ℤ chunk) × Tiles chunk (start +ℤ len) end rest

chunk_len_bounds :
    (chunk offset end : ℤ)
    → pos 1 ≤ℤ chunk
    → offset ≤ℤ end
    → (pos 1 ≤ℤ chunk_len chunk offset end)
      × (chunk_len chunk offset end ≤ℤ chunk)
      × (offset +ℤ chunk_len chunk offset end ≤ℤ end +ℤ pos 1)
unfolding chunk_len
chunk_len_bounds chunk offset end low le =
    let whole : eqb_ℤ chunk (negsuc 0) ≡ false = ground arith in
    elim (Bool-cases (ltb_ℤ end (offset +ℤ chunk))) [
      | inl e ↦
          let fact = lt_of_ltb_ℤ end (offset +ℤ chunk) e in
          rw (whole, e, chunk_len) (omega (int_laws, fact))
      | inr e ↦
          let fact = ge_of_ltb_ℤ end (offset +ℤ chunk) e in
          rw (whole, e, chunk_len) (omega (int_laws, fact))
    ]

-- With chunks of at least one byte and a range that is not empty, as many rounds as the range has
-- bytes are enough for the loop, and the chunks are non-empty, at most as long as a chunk may be,
-- and cover the range without gap or overlap.
pub chunks-Tiles :
    (fuel : ℕ) (chunk start end : ℤ)
    → pos 1 ≤ℤ chunk
    → start ≤ℤ end
    → end ≤ℤ start +ℤ pos fuel
    → (l : List (ℤ × ℤ)) × (chunks (suc fuel) chunk start end ≡ some l) × Tiles chunk start end l
unfolding chunks
chunks-Tiles zero chunk start end low le enough =
    let len = chunk_len chunk start end in
    let (l₁, l₂, l₃) = chunk_len_bounds chunk start end low le in
    let last : ltb_ℤ end (start +ℤ len) ≡ true = ltb_ℤ_of_lt end (start +ℤ len) (omega int_laws) in
    ((start, len) ∷ [], rw (last, chunks), (refl, l₁, l₂, omega int_laws))
chunks-Tiles (suc fuel) chunk start end low le enough =
    let len = chunk_len chunk start end in
    let (l₁, l₂, l₃) = chunk_len_bounds chunk start end low le in
    elim (Bool-cases (ltb_ℤ end (start +ℤ len))) [
      | inl e ↦
          let fact = lt_of_ltb_ℤ end (start +ℤ len) e in
          ((start, len) ∷ [], rw (e, chunks), (refl, l₁, l₂, omega (int_laws, fact)))
      | inr e ↦
          let fact = ge_of_ltb_ℤ end (start +ℤ len) e in
          let (l, p, t) =
            chunks-Tiles fuel chunk (start +ℤ len) end low fact (omega (int_laws, fact, enough)) in
          ((start, len) ∷ l, rw (e, p, chunks), (refl, l₁, l₂, t))
    ]
