-- ===== src/Reader/Truncation.antt =====
-- Where `QingStorReader::setupPipeline` (src/QingStorReader.cpp) does not cover the range: a chunk
-- size of zero, and one connection for a long range.
use qing_stor_c_sdk.Prelude.{
  ℕ, zero, suc, ◌+◌, ◌*◌, ◌^◌, ◌<◌, ◌≡◌, refl, ap, true, false, [], ◌∷◌, Bytes, none, some, arith,
}
use qing_stor_c_sdk.Prelude.Int.{
  ℤ, pos, negsuc, ◌+ℤ◌, ◌-ℤ◌, ◌≤ℤ◌, ltb_ℤ, to_int, pos_part, neg_part, int_laws, ltb_ℤ_of_lt,
  ltb_ℤ_of_ge,
}
use qing_stor_c_sdk.Config.{Configuration}
use qing_stor_c_sdk.Fetcher.{Fetcher}
use qing_stor_c_sdk.Reader.{
  ObjectInfo, chunk_sizes, chunk_len, chunks, chunk_fetcher, setup_pipeline,
}

chunks-none : (fuel : ℕ) (start end : ℤ) → start ≤ℤ end → chunks fuel (pos 0) start end ≡ none
unfolding chunks chunk_len
chunks-none zero start end le = refl
chunks-none (suc fuel) start end le =
    let stay : start +ℤ pos 0 ≡ start = omega int_laws in
    let more : ltb_ℤ end start ≡ false = ltb_ℤ_of_ge end start le in
    let more' : ltb_ℤ end (start +ℤ pos 0) ≡ false = rw stay more in
    rw (more', chunks, chunk_len) (rw (stay, more, chunks-none fuel start end le))

pub chunk_sizes-many :
    (c : Configuration) → pos 2 ≤ℤ c.num_connections → (chunk_sizes c).0 ≡ c.chunk_size
unfolding chunk_sizes
chunk_sizes-many c many = rw (ltb_ℤ_of_lt (pos 1) c.num_connections (omega arith), chunk_sizes)

chunk_sizes-one : (c : Configuration) → c.num_connections ≤ℤ pos 1 → (chunk_sizes c).0 ≡ negsuc 0
unfolding chunk_sizes
chunk_sizes-one c one = rw (ltb_ℤ_of_ge (pos 1) c.num_connections (omega arith), chunk_sizes)

-- With a chunk size of 0, which `qingstorInitContext` accepts, more than one connection and a range
-- that is not empty, the loop that sets the fetchers up does not end, whatever the number of rounds.
pub setup_pipeline-none :
    (fuel : ℕ) (c : Configuration) (bucket : Bytes) (object : ObjectInfo)
    → c.chunk_size ≡ pos 0
    → pos 2 ≤ℤ c.num_connections
    → object.range.start ≤ℤ object.range.end
    → setup_pipeline fuel c bucket object ≡ none
unfolding setup_pipeline
setup_pipeline-none fuel c bucket object e many le =
    rw (chunk_sizes-many c many, e, chunks-none fuel _ _ le, setup_pipeline)

-- The one round of the loop without chunks.
chunks-whole :
    (fuel : ℕ) (start end : ℤ) (n : ℕ)
    → end +ℤ pos 1 ≡ start +ℤ pos n
    → chunks (suc fuel) (negsuc 0) start end ≡ some ((start, pos n) ∷ [])
unfolding chunks chunk_len
chunks-whole fuel start end n e =
    let p = ap pos_part e in
    let q = ap neg_part e in
    let len : end -ℤ start +ℤ pos 1 ≡ pos n = omega (int_laws, p, q) in
    let last : ltb_ℤ end (start +ℤ pos n) ≡ true =
      ltb_ℤ_of_lt end (start +ℤ pos n) (omega (int_laws, p, q)) in
    rw (len, last)

to_int_wraps : (q r : ℕ) → r < 2 ^ 31 → to_int (pos (q * 2 ^ 32 + r)) ≡ pos r
to_int_wraps q r small = ground arith

-- With one connection there is one fetcher, for the whole range; its length is an `int`, so of a
-- range of q * 2 ^ 32 + r bytes with r below 2 ^ 31 it asks for the first r only.
pub one_connection :
    (fuel : ℕ) (c : Configuration) (bucket : Bytes) (object : ObjectInfo) (q r : ℕ)
    → c.num_connections ≤ℤ pos 1
    → r < 2 ^ 31
    → object.range.end +ℤ pos 1 ≡ object.range.start +ℤ pos (q * 2 ^ 32 + r)
    → (f : Fetcher) × (setup_pipeline (suc fuel) c bucket object ≡ some (f ∷ []))
      × (f.offset ≡ object.range.start)
      × (f.len ≡ pos r)
unfolding setup_pipeline
one_connection fuel c bucket object q r one small e = (
  chunk_fetcher c bucket object (object.range.start, pos (q * 2 ^ 32 + r)),
  rw (chunk_sizes-one c one, setup_pipeline)
      (rw (chunks-whole fuel object.range.start object.range.end (q * 2 ^ 32 + r) e)),
  unfold chunk_fetcher in refl,
  unfold chunk_fetcher in to_int_wraps q r small,
)
