-- ===== src/Prelude/Text.antt =====
-- Byte strings: C strings and `std::string` as lists of byte values, their comparison, and the
-- decimal print of `operator<<` and `%ld`.
use Prim.Native.Nat.{ℕ, zero, suc, ◌+◌, ◌/◌, ◌%◌, ◌^◌, ◌<◌, ◌≤◌}
use Prim.Native.Char.{code}
use Prim.Native.String.{String}
use mathlib.Core.Path.{◌≡◌, refl}
use mathlib.Core.Logic.{◌↔◌, ◌≢◌}
use mathlib.Core.Option.{Option, none, some}
use mathlib.Core.Bool.{Bool, true, false, ◌&&◌}
use mathlib.Core.List.{List, [], ◌∷◌, ◌++◌}
use native.Mathlib.Omega.{arith, pow_step}
use qing_stor_c_sdk.Prelude.Tests.{◌==◌, ltb, if◌then◌else◌}
use qing_stor_c_sdk.Prelude.Lists.{length}

abbrev pub Bytes : Type 0
Bytes = List ℕ

-- The bytes of a text literal.
abbrev pub codes : String → Bytes
codes String.[] = []
codes (String.◌∷◌ c s) = code c ∷ codes s

-- `strcmp(a, b) == 0`, `a.compare(b) == 0`
abbrev pub bytes_eq : Bytes → Bytes → Bool
bytes_eq [] [] = true
bytes_eq [] (b ∷ bs) = false
bytes_eq (a ∷ as') [] = false
bytes_eq (a ∷ as') (b ∷ bs) = a == b && bytes_eq as' bs

-- `s.empty()`, `strlen(s) == 0`
abbrev pub is_empty {ℓ} : {A : Type ℓ} → List A → Bool
is_empty [] = true
is_empty (x ∷ xs) = false

pub bytes_eq_iff : (a b : Bytes) → (bytes_eq a b ≡ true) ↔ (a ≡ b)
bytes_eq_iff [] [] = ground arith
bytes_eq_iff [] (b ∷ bs) = ground arith
bytes_eq_iff (a ∷ as') [] = ground arith
bytes_eq_iff (a ∷ as') (b ∷ bs) = ground (arith, bytes_eq_iff as' bs)

-- The digits of `n` in front of `out`; a number has at most as many digits as its own value.
digits : ℕ → ℕ → Bytes → Bytes
digits zero n out = out
digits (suc fuel) n out =
    let rest = digits fuel (n / 10) ((b'0' + n % 10) ∷ out) in
    if ltb n 10 then (b'0' + n) ∷ out else rest

unfoldable pub decimal : ℕ → Bytes
unfolding digits
decimal n = digits (suc n) n []

not_longer :
    (b : Bool) (x y : Bytes) (n : ℕ)
    → length x ≤ n
    → (b ≡ false → length y ≤ n)
    → length (if b then x else y) ≤ n
not_longer true x y n p q = p
not_longer false x y n p q = q refl

digits-length :
    (k fuel n : ℕ) (out : Bytes) → n < 10 ^ suc k → length (digits fuel n out) ≤ suc k + length out
unfolding digits
digits-length k zero n out lt = omega arith
digits-length zero (suc fuel) n out lt =
    not_longer (ltb n 10) _ _ (1 + length out) (omega arith) λ e. absurd (ground (arith, e, lt))
digits-length (suc k) (suc fuel) n out lt =
    let fewer : n / 10 < 10 ^ suc k = omega (arith, lt, pow_step 10 (suc k)) in
    let rest = digits-length k fuel (n / 10) ((b'0' + n % 10) ∷ out) fewer in
    not_longer (ltb n 10) _ _ (suc (suc k) + length out) (omega arith) λ e. omega (arith, rest)

-- A number below 10 ^ k has at most `k` digits.
pub decimal-length : (k n : ℕ) → n < 10 ^ suc k → length (decimal n) ≤ suc k
unfolding decimal
decimal-length k n lt = omega (arith, digits-length k (suc n) n [] lt)

-- The byte `c` does not stand in the text.
abbrev pub Lacks : ℕ → Bytes → Type 0
Lacks c [] = Unit
Lacks c (x ∷ xs) = (x ≢ c) × Lacks c xs

-- The text up to the first `c`.
abbrev pub upto : ℕ → Bytes → Bytes
upto c [] = []
upto c (x ∷ xs) = let rest = upto c xs in if x == c then [] else x ∷ rest

pub upto-append : (c : ℕ) (xs ys : Bytes) → Lacks c xs → upto c (xs ++ c ∷ ys) ≡ xs
upto-append c [] ys h = ground arith
upto-append c (x ∷ xs) ys h = ground (arith, upto-append c xs ys h.1)

-- The text before the first `c` and the text behind it, if there is a `c`.
abbrev cons_left : ℕ → Option (Bytes × Bytes) → Option (Bytes × Bytes)
cons_left x none = none
cons_left x (some (a, b)) = some (x ∷ a, b)

abbrev pub split_at : ℕ → Bytes → Option (Bytes × Bytes)
split_at c [] = none
split_at c (x ∷ xs) = let rest = split_at c xs in if x == c then some ([], xs) else cons_left x rest

pub split_at-append :
    (c : ℕ) (xs ys : Bytes) → Lacks c xs → split_at c (xs ++ c ∷ ys) ≡ some (xs, ys)
split_at-append c [] ys h = ground arith
split_at-append c (x ∷ xs) ys h = ground (arith, split_at-append c xs ys h.1)

pub split_at-Lacks : (c : ℕ) (xs : Bytes) → Lacks c xs → split_at c xs ≡ none
split_at-Lacks c [] h = refl
split_at-Lacks c (x ∷ xs) h = ground (arith, split_at-Lacks c xs h.1)

pub Lacks-append : (c : ℕ) (xs ys : Bytes) → Lacks c xs → Lacks c ys → Lacks c (xs ++ ys)
Lacks-append c [] ys h k = k
Lacks-append c (x ∷ xs) ys h k = (h.0, Lacks-append c xs ys h.1 k)
