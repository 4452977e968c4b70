-- ===== src/Prelude/Slices.antt =====
-- Laws of `take` and `drop` for code that copies parts of arrays.
use qing_stor_c_sdk.Prelude.{
  min, ℕ, zero, suc, ◌+◌, ◌-◌, ◌≤◌, ◌≡◌, refl, sym, ap, ◌∙◌, List, [], ◌∷◌, ◌++◌, length, take,
  drop, length-take, arith,
}

module _ {ℓ} {A : Type ℓ} where
  pub take-nil : (n : ℕ) → take {A = A} n [] ≡ []
  take-nil zero = refl
  take-nil (suc n) = refl

  pub drop-nil : (n : ℕ) → drop {A = A} n [] ≡ []
  drop-nil zero = refl
  drop-nil (suc n) = refl

  -- A part that is the whole front.
  pub take_exact : (xs ys : List A) (n : ℕ) → n ≡ length xs → take n (xs ++ ys) ≡ xs
  take_exact [] ys zero h = refl
  take_exact [] ys (suc n) h = absurd (omega arith)
  take_exact (x ∷ xs) ys zero h = absurd (omega arith)
  take_exact (x ∷ xs) ys (suc n) h = ap (λ l. x ∷ l) (take_exact xs ys n (omega arith))

  -- A part that is as long as it can be.
  pub take_front :
      (xs ys : List A) (n : ℕ) → length xs ≡ min n (length (xs ++ ys)) → take n (xs ++ ys) ≡ xs
  take_front [] ys zero h = refl
  take_front [] [] (suc n) h = refl
  take_front [] (y ∷ ys) (suc n) h = absurd (omega (arith, h))
  take_front (x ∷ xs) ys zero h = absurd (omega (arith, h))
  take_front (x ∷ xs) ys (suc n) h = ap (λ l. x ∷ l) (take_front xs ys n (omega (arith, h)))

  pub take_all : (xs : List A) (n : ℕ) → length xs ≤ n → take n xs ≡ xs
  take_all [] n h = take-nil n
  take_all (x ∷ xs) zero h = absurd (omega arith)
  take_all (x ∷ xs) (suc n) h = ap (λ l. x ∷ l) (take_all xs n (omega arith))

  pub drop_all : (xs : List A) (n : ℕ) → length xs ≤ n → drop n xs ≡ []
  drop_all [] n h = drop-nil n
  drop_all (x ∷ xs) zero h = absurd (omega (arith, h))
  drop_all (x ∷ xs) (suc n) h = drop_all xs n (omega (arith, h))

  pub drop-append_le :
      (n : ℕ) (xs ys : List A) → n ≤ length xs → drop n (xs ++ ys) ≡ drop n xs ++ ys
  drop-append_le zero xs ys h = refl
  drop-append_le (suc n) [] ys h = absurd (omega arith)
  drop-append_le (suc n) (x ∷ xs) ys h = drop-append_le n xs ys (omega arith)

  pub drop-take : (m n : ℕ) (xs : List A) → drop m (take n xs) ≡ take (n - m) (drop m xs)
  drop-take zero n xs = ap (λ k. take k xs) (omega arith)
  drop-take (suc m) zero [] = sym (take-nil (zero - suc m))
  drop-take (suc m) zero (x ∷ xs) = let e : zero - suc m ≡ 0 = omega arith in rw e
  drop-take (suc m) (suc n) [] = sym (take-nil (suc n - suc m))
  drop-take (suc m) (suc n) (x ∷ xs) =
      let e : suc n - suc m ≡ n - m = omega arith in rw e (drop-take m n xs)

  pub take-append-take : (m n : ℕ) (xs : List A) → take m xs ++ take n (drop m xs) ≡ take (m + n) xs
  take-append-take zero n xs = ap (λ k. take k xs) (omega arith)
  take-append-take (suc m) n [] = rw (take-nil n) (sym (take-nil (suc m + n)))
  take-append-take (suc m) n (x ∷ xs) =
      let e : suc m + n ≡ suc (m + n) = omega arith in
      rw e (ap (λ l. x ∷ l) (take-append-take m n xs))

  pub drop-drop : (m n : ℕ) (xs : List A) → drop n (drop m xs) ≡ drop (m + n) xs
  drop-drop zero n xs = ap (λ k. drop k xs) (omega arith)
  drop-drop (suc m) n [] = drop-nil n ∙ sym (drop-nil (suc m + n))
  drop-drop (suc m) n (x ∷ xs) =
      let e : suc m + n ≡ suc (m + n) = omega arith in rw e (drop-drop m n xs)

  pub length-take_le : (n : ℕ) (xs : List A) → n ≤ length xs → length (take n xs) ≡ n
  length-take_le n xs h = omega (arith, length-take n xs)

  pub drop_exact : (xs ys : List A) (n : ℕ) → n ≡ length xs → drop n (xs ++ ys) ≡ ys
  drop_exact [] ys zero h = refl
  drop_exact [] ys (suc n) h = absurd (omega (arith, h))
  drop_exact (x ∷ xs) ys zero h = absurd (omega (arith, h))
  drop_exact (x ∷ xs) ys (suc n) h = drop_exact xs ys n (omega (arith, h))
