-- ===== src/Prelude/Lists.antt =====
-- Lists measured by native numbers, under the library's names, and their first `n` elements with a
-- filler behind them.
use Prim.Native.Nat.{ℕ, zero, suc, ◌+◌, ◌-◌, ◌≤◌, min}
use mathlib.Core.Path.{◌≡◌, refl, ap}
use mathlib.Core.List.{List, [], ◌∷◌, ◌++◌}
use native.Mathlib.Omega.{arith}
use distributed_server_clien.Prelude.Tests.{◌==◌, if◌then◌else◌}

module _ {ℓ} {A : Type ℓ} where
  abbrev pub length : List A → ℕ
  length [] = 0
  length (x ∷ xs) = suc (length xs)

  abbrev pub get_or : List A → ℕ → A → A
  get_or [] i d = d
  get_or (x ∷ xs) zero d = x
  get_or (x ∷ xs) (suc i) d = get_or xs i d

  abbrev pub replicate : ℕ → A → List A
  replicate zero a = []
  replicate (suc n) a = a ∷ replicate n a

  -- The first `n` elements of an array that holds `a` behind the list.
  abbrev pub take_d : ℕ → List A → A → List A
  take_d zero xs a = []
  take_d (suc n) [] a = a ∷ take_d n [] a
  take_d (suc n) (x ∷ xs) a = x ∷ take_d n xs a

  pub length-append : (xs ys : List A) → length (xs ++ ys) ≡ length xs + length ys
  length-append [] ys = omega arith
  length-append (x ∷ xs) ys = omega (arith, length-append xs ys)

  pub length-replicate : (n : ℕ) (a : A) → length (replicate n a) ≡ n
  length-replicate zero a = refl
  length-replicate (suc n) a = ap suc (length-replicate n a)

  pub length-take_d : (n : ℕ) (xs : List A) (a : A) → length (take_d n xs a) ≡ n
  length-take_d zero xs a = refl
  length-take_d (suc n) [] a = ap suc (length-take_d n [] a)
  length-take_d (suc n) (x ∷ xs) a = ap suc (length-take_d n xs a)

module _ {ℓ} {A : Type ℓ} where
  -- By recursion on the list: `n` is mostly the size of a large array.
  unfoldable pub take : ℕ → List A → List A
  take n [] = []
  take n (x ∷ xs) = if n == 0 then [] else x ∷ take (n - 1) xs

  pub take_of_length-le : (n : ℕ) (xs : List A) → length xs ≤ n → take n xs ≡ xs
  unfolding take
  take_of_length-le n [] h = refl
  take_of_length-le n (x ∷ xs) h = ground (arith, take_of_length-le (n - 1) xs)

  unfoldable pub drop : ℕ → List A → List A
  drop n [] = []
  drop n (x ∷ xs) = if n == 0 then x ∷ xs else drop (n - 1) xs

  pub drop-append : (n : ℕ) (xs ys : List A) → length xs ≡ n → drop n (xs ++ ys) ≡ ys
  unfolding drop
  drop-append n [] [] h = refl
  drop-append n [] (y ∷ ys) h = ground arith
  drop-append n (x ∷ xs) ys h = ground (arith, drop-append (n - 1) xs ys)

  pub drop-append_add :
      (n k : ℕ) (xs ys : List A) → length xs + k ≡ n → drop n (xs ++ ys) ≡ drop k ys
  unfolding drop
  drop-append_add n k [] ys h = ap (λ (m : ℕ). drop m ys) (omega arith)
  drop-append_add n k (x ∷ xs) ys h = ground (arith, drop-append_add (n - 1) k xs ys)

  pub length-drop : (n : ℕ) (xs : List A) → length (drop n xs) ≡ length xs - n
  unfolding drop
  length-drop n [] = omega arith
  length-drop n (x ∷ xs) = ground (arith, length-drop (n - 1) xs)

  pub length-take : (n : ℕ) (xs : List A) → length (take n xs) ≡ min n (length xs)
  unfolding take
  length-take n [] = omega arith
  length-take n (x ∷ xs) = ground (arith, length-take (n - 1) xs)

  pub take-append-drop : (n : ℕ) (xs : List A) → take n xs ++ drop n xs ≡ xs
  unfolding take drop
  take-append-drop n [] = refl
  take-append-drop n (x ∷ xs) = ground (arith, take-append-drop (n - 1) xs)

  pub take_d-append : (n : ℕ) (xs ys : List A) (a : A) → length xs ≡ n → take_d n (xs ++ ys) a ≡ xs
  take_d-append zero [] ys a h = refl
  take_d-append zero (x ∷ xs) ys a h = absurd (omega arith)
  take_d-append (suc n) [] ys a h = absurd (omega arith)
  take_d-append (suc n) (x ∷ xs) ys a h = ap (◌∷◌ x) (take_d-append n xs ys a (omega arith))

  -- A prefix that fits is kept whole, and the rest of the room goes to what follows it.
  pub take_d-append_add :
      (n k : ℕ) (xs ys : List A) (a : A)
      → length xs + k ≡ n
      → take_d n (xs ++ ys) a ≡ xs ++ take_d k ys a
  take_d-append_add n k [] ys a h = ap (λ (m : ℕ). take_d m ys a) (omega arith)
  take_d-append_add zero k (x ∷ xs) ys a h = absurd (omega arith)
  take_d-append_add (suc n) k (x ∷ xs) ys a h =
      ap (◌∷◌ x) (take_d-append_add n k xs ys a (omega arith))

  pub take_d_of_length : (n : ℕ) (xs : List A) (a : A) → length xs ≡ n → take_d n xs a ≡ xs
  take_d_of_length zero [] a h = refl
  take_d_of_length zero (x ∷ xs) a h = absurd (omega arith)
  take_d_of_length (suc n) [] a h = absurd (omega arith)
  take_d_of_length (suc n) (x ∷ xs) a h = ap (◌∷◌ x) (take_d_of_length n xs a (omega arith))
