-- ===== src/Config/Atoi.antt =====
-- `atoi` of the C library: `(int) strtol(s, NULL, 10)`. `strtol` skips white space, reads one sign
-- and the digits that follow, and stays within a `long`; the cast keeps the low 32 bits.
use qing_stor_c_sdk.Prelude.{
  ℕ, ◌+◌, ◌-◌, ◌*◌, ◌%◌, ◌^◌, ◌≡◌, refl, Bool, ◌&&◌, ◌||◌, [], ◌∷◌, Bytes, codes, leb, ltb, ◌==◌,
  if◌then◌else◌, min, arith,
}
use qing_stor_c_sdk.Prelude.Int.{ℤ, pos, negsuc, ◌≤ℤ◌}

is_space : ℕ → Bool
is_space c = c == 32 || leb 9 c && leb c 13

-- The value of the leading digits, behind `n`.
leading_number : ℕ → Bytes → ℕ
leading_number n [] = n
leading_number n (c ∷ cs) =
    let rest = leading_number (n * 10 + (c - b'0')) cs in
    if leb b'0' c && leb c b'9' then rest else n

-- The cast of a `long` to `int`: for `+m` and for `-m`.
abbrev to_int32 : ℕ → ℤ
to_int32 m = let low = m % 2 ^ 32 in if ltb low (2 ^ 31) then pos low else negsuc (2 ^ 32 - low - 1)

abbrev negated_int32 : ℕ → ℤ
negated_int32 m = to_int32 (2 ^ 32 - m % 2 ^ 32)

signed_number : Bytes → ℤ
unfolding leading_number
signed_number [] = pos 0
signed_number (c ∷ cs) =
    if c == b'-'
    then negated_int32 (min (leading_number 0 cs) (2 ^ 63))
    else if c == b'+'
    then to_int32 (min (leading_number 0 cs) (2 ^ 63 - 1))
    else to_int32 (min (leading_number 0 (c ∷ cs)) (2 ^ 63 - 1))

unfoldable pub atoi : Bytes → ℤ
unfolding is_space signed_number
atoi [] = pos 0
atoi (c ∷ cs) = let rest = atoi cs in if is_space c then rest else signed_number (c ∷ cs)

-- The result is an `int`.
pub atoi-le-int_max : (s : Bytes) → atoi s ≤ℤ pos 2147483647
unfolding atoi signed_number
atoi-le-int_max [] = omega arith
atoi-le-int_max (c ∷ cs) = ground (arith, atoi-le-int_max cs)

atoi_tests :
    (atoi (codes " 42x") ≡ pos 42)
    × (atoi (codes "-7") ≡ negsuc 6)
    × (atoi (codes "") ≡ pos 0)
    × (atoi (codes "4294967297") ≡ pos 1)
    × (atoi (codes "2147483648") ≡ negsuc 2147483647)
unfolding atoi
atoi_tests = (refl, refl, refl, refl, refl)
