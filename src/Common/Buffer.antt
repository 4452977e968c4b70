-- ===== src/Common/Buffer.antt =====
-- `BufferInfo` and `ParserCallback` of src/QingStorCommon.cpp: a response, received in chunks.
-- `data` holds the bytes below `position`; those above are never read. A chunk's length is
-- `size * nmemb`, as curl documents it.
use qing_stor_c_sdk.Prelude.{
  ℕ, zero, suc, ◌+◌, ◌*◌, ◌%◌, ◌^◌, ◌≤◌, ◌<◌, ◌≡◌, refl, sym, List, [], ◌∷◌, ◌++◌, Bytes, length,
  length-append, take, append-nil, append_assoc, leb, if◌then◌else◌, Option, none, some, arith,
  false, Bool-cases, inl, inr,
}
use native.Mathlib.Nat.{pow-suc}
use mathlib.Core.Path.{subst}

pub record BufferInfo : Type 0 where
  pub data_ : Option Bytes
  pub size : ℕ
  pub position : ℕ

-- `info.data = NULL`; the sizes are not set before the first chunk.
abbrev pub no_data : BufferInfo
no_data = record { data_ = none; size = 0; position = 0 }

-- `while (need >= size) size <<= 1;` with fuel.
unfoldable pub grow : ℕ → ℕ → ℕ → Option ℕ
grow zero need size = none
grow (suc fuel) need size =
    let bigger = grow fuel need (size * 2 % 2 ^ 64) in if leb size need then bigger else some size

-- The buffer at the first chunk: `new char[1024]`.
abbrev allocated : BufferInfo → BufferInfo
allocated b = elim b.data_ [
  | none ↦ record { data_ = some []; size = 1024; position = 0 }
  | some bytes ↦ b
]

abbrev contents_of : Option Bytes → Bytes
contents_of none = []
contents_of (some bytes) = bytes

-- A size doubles at most 53 times between 1024 and 2 ^ 63; `none` stands for a loop without end.
unfoldable pub parser_callback : BufferInfo → Bytes → Option BufferInfo
parser_callback b contents =
    let a = allocated b in
    elim (grow 64 ((a.position + length contents) % 2 ^ 64) a.size) [
      | none ↦ none
      | some size ↦ some (record {
        data_ = some (take a.position (contents_of a.data_) ++ contents);
        size = size;
        position = (a.position + length contents) % 2 ^ 64;
      })
    ]

-- The chunks of one response.
unfoldable pub receive : BufferInfo → List Bytes → Option BufferInfo
receive b [] = some b
receive b (c ∷ cs) = elim (parser_callback b c) [ none ↦ none | some b' ↦ receive b' cs ]

abbrev pub concat {ℓ} : {A : Type ℓ} → List (List A) → List A
concat [] = []
concat (x ∷ xs) = x ++ concat xs

double_step : (f size : ℕ) → size * 2 ^ suc f ≡ size * 2 * 2 ^ f
double_step f size = rw pow-suc (grind arith)

-- Enough fuel: the size doubled `fuel` times passes the need.
grow_total :
    (fuel need size : ℕ)
    → size ≤ 2 ^ 63
    → need < 2 ^ 62
    → need < size * 2 ^ fuel
    → (s : ℕ) × (grow (suc fuel) need size ≡ some s) × (need < s) × (size ≤ s) × (s ≤ 2 ^ 63)
unfolding grow
grow_total zero need size small fits enough =
    let e : leb size need ≡ false = ground arith in (size, rw e, omega arith, omega arith, small)
grow_total (suc fuel) need size small fits enough = elim (Bool-cases (leb size need)) [
  | inr e ↦ (size, rw e, ground arith, omega arith, small)
  | inl e ↦
      let w : size * 2 % 2 ^ 64 ≡ size * 2 = ground arith in
      let (s, p, q, l, r) =
        grow_total fuel need (size * 2) (ground arith) fits
          (subst (λ k. need < k) (double_step fuel size) enough) in
      (s, rw (e, w) p, q, omega arith, r)
]

-- What a buffer holds once a chunk has come in: `bytes`, with room for the NUL.
pub record Holds (b : BufferInfo) (bytes : Bytes) : Type 0 where
  pub stored : b.data_ ≡ some bytes
  pub counted : b.position ≡ length bytes
  pub room : b.position < b.size
  pub low : 1024 ≤ b.size
  pub high : b.size ≤ 2 ^ 63

take-length {ℓ} : {A : Type ℓ} (xs : List A) → take (length xs) xs ≡ xs
take-length [] = refl
take-length (x ∷ xs) = rw (take-length xs)

store_chunk :
    (bytes contents : Bytes) (size : ℕ)
    → 1024 ≤ size
    → size ≤ 2 ^ 63
    → length bytes + length contents < 2 ^ 62
    → (b : BufferInfo) × (parser_callback
          (record { data_ = some bytes; size = size; position = length bytes })
          contents
        ≡ some b)
      × Holds b (bytes ++ contents)
unfolding parser_callback
store_chunk bytes contents size low high fits =
    let need : ℕ = length bytes + length contents in
    let w : need % 2 ^ 64 ≡ need = omega arith in
    let (s, p, q, l, r) = grow_total 63 need size high fits (omega arith) in
    (
      record { data_ = some (bytes ++ contents); size = s; position = need },
      rw (w, p, parser_callback) (rw (take-length bytes, w)),
      record {
        stored = refl;
        counted = sym (length-append bytes contents);
        room = q;
        low = omega arith;
        high = r;
      },
    )

-- One chunk onto a buffer that holds `bytes`.
parser_callback-Holds :
    (b : BufferInfo) (bytes contents : Bytes)
    → Holds b bytes
    → length bytes + length contents < 2 ^ 62
    → (b' : BufferInfo) × (parser_callback b contents ≡ some b') × Holds b' (bytes ++ contents)
parser_callback-Holds b bytes contents h fits =
    let e : b ≡ record { data_ = some bytes; size = b.size; position = length bytes } =
      ground (arith, h.stored, h.counted) in
    rw e (store_chunk bytes contents b.size h.low h.high fits)

receive-Holds :
    (chunks : List Bytes) (b : BufferInfo) (bytes : Bytes)
    → Holds b bytes
    → length bytes + length (concat chunks) < 2 ^ 62
    → (b' : BufferInfo) × (receive b chunks ≡ some b') × Holds b' (bytes ++ concat chunks)
unfolding receive
receive-Holds [] b bytes h fits = (b, refl, rw append-nil h)
receive-Holds (c ∷ cs) b bytes h fits =
    let len : length (c ++ concat cs) ≡ length c + length (concat cs) =
      length-append c (concat cs) in
    let (b₁, e₁, h₁) = parser_callback-Holds b bytes c h (omega (arith, len)) in
    let (b₂, e₂, h₂) =
      receive-Holds cs b₁ (bytes ++ c) h₁ (omega (arith, len, length-append bytes c)) in
    (b₂, rw (e₁, receive) e₂, rw (← append_assoc) h₂)

-- The first chunk finds a fresh buffer.
parser_callback-no_data :
    (c : Bytes)
    → parser_callback no_data c
      ≡ parser_callback (record { data_ = some []; size = 1024; position = 0 }) c
unfolding parser_callback
parser_callback-no_data c = refl

-- A response of at least one chunk and fewer than 2 ^ 62 bytes: every doubling loop ends, the
-- buffer holds the chunks in their order with nothing lost, and one byte is left for the NUL that
-- the caller writes.
pub receive_lem :
    (c : Bytes) (cs : List Bytes)
    → length (concat (c ∷ cs)) < 2 ^ 62
    → (b : BufferInfo) × (receive no_data (c ∷ cs) ≡ some b) × Holds b (concat (c ∷ cs))
unfolding receive
receive_lem c cs fits =
    let len : length (c ++ concat cs) ≡ length c + length (concat cs) =
      length-append c (concat cs) in
    let (b₁, e₁, h₁) = store_chunk [] c 1024 (omega arith) (omega arith) (omega (arith, len)) in
    let (b₂, e₂, h₂) = receive-Holds cs b₁ c h₁ (omega (arith, len)) in
    (b₂, rw (parser_callback-no_data, e₁, receive) e₂, h₂)
