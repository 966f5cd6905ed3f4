-- ===== src/Prelude/Lists.antt =====
-- Lists measured and indexed by native numbers, under the library's names.
use Prim.Native.Nat.{ℕ, zero, suc, ◌+◌, ◌<◌}
use mathlib.Core.Path.{◌≡◌, refl}
use mathlib.Core.Logic.{◌≢◌}
use mathlib.Core.Bool.{Bool, true, false, ◌&&◌}
use mathlib.Core.List.{List, [], ◌∷◌, ◌++◌}
use native.Mathlib.Omega.{arith}
use deltafs.Prelude.Tests.{◌==◌}

module _ {ℓ} {A : Type ℓ} where
  abbrev pub length : List A → ℕ
  length [] = 0
  length (x ∷ xs) = suc (length xs)

  abbrev pub is_empty : List A → Bool
  is_empty [] = true
  is_empty (x ∷ xs) = false

  abbrev pub replicate : ℕ → A → List A
  replicate zero a = []
  replicate (suc n) a = a ∷ replicate n a

  -- A write out of bounds changes nothing.
  abbrev pub set : List A → ℕ → A → List A
  set [] i v = []
  set (x ∷ xs) zero v = v ∷ xs
  set (x ∷ xs) (suc i) v = x ∷ set xs i v

  abbrev pub get_or : List A → ℕ → A → A
  get_or [] i d = d
  get_or (x ∷ xs) zero d = x
  get_or (x ∷ xs) (suc i) d = get_or xs i d

  abbrev pub take : ℕ → List A → List A
  take zero xs = []
  take (suc n) [] = []
  take (suc n) (x ∷ xs) = x ∷ take n xs

  abbrev pub drop : ℕ → List A → List A
  drop zero xs = xs
  drop (suc n) [] = []
  drop (suc n) (x ∷ xs) = drop n xs

  abbrev pub All {κ} : (A → Type κ) → List A → Type κ
  All P [] = Unit {κ}
  All P (x ∷ xs) = P x × All P xs

  pub length-append : (xs ys : List A) → length (xs ++ ys) ≡ length xs + length ys
  length-append [] ys = omega arith
  length-append (x ∷ xs) ys = omega (arith, length-append xs ys)

  pub length-set : (xs : List A) (n : ℕ) (x : A) → length (set xs n x) ≡ length xs
  length-set [] n x = refl
  length-set (y ∷ ys) zero x = refl
  length-set (y ∷ ys) (suc n) x = omega (arith, length-set ys n x)

  pub get_or-set_self :
      (xs : List A) (n : ℕ) (x d : A) → n < length xs → get_or (set xs n x) n d ≡ x
  get_or-set_self [] n x d h = absurd (omega arith)
  get_or-set_self (y ∷ ys) zero x d h = refl
  get_or-set_self (y ∷ ys) (suc n) x d h = get_or-set_self ys n x d (omega arith)

  pub get_or-set_ne :
      (xs : List A) (n m : ℕ) (x d : A) → n ≢ m → get_or (set xs n x) m d ≡ get_or xs m d
  get_or-set_ne [] n m x d h = refl
  get_or-set_ne (y ∷ ys) zero zero x d h = absurd (h refl)
  get_or-set_ne (y ∷ ys) zero (suc m) x d h = refl
  get_or-set_ne (y ∷ ys) (suc n) zero x d h = refl
  get_or-set_ne (y ∷ ys) (suc n) (suc m) x d h = get_or-set_ne ys n m x d (λ e. h (omega arith))

  pub set-set : (xs : List A) (n : ℕ) (x y : A) → set (set xs n x) n y ≡ set xs n y
  set-set [] n x y = refl
  set-set (z ∷ zs) zero x y = refl
  set-set (z ∷ zs) (suc n) x y = rw (set-set zs n x y)

  pub set-get_or : (xs : List A) (n : ℕ) (d : A) → set xs n (get_or xs n d) ≡ xs
  set-get_or [] n d = refl
  set-get_or (z ∷ zs) zero d = refl
  set-get_or (z ∷ zs) (suc n) d = rw (set-get_or zs n d)

-- Byte strings, compared as `Slice::compare` does for equality.
abbrev pub Bytes : Type 0
Bytes = List ℕ

unfoldable pub bytes_eq : Bytes → Bytes → Bool
bytes_eq [] [] = true
bytes_eq [] (y ∷ ys) = false
bytes_eq (x ∷ xs) [] = false
bytes_eq (x ∷ xs) (y ∷ ys) = (x == y) && bytes_eq xs ys

pub bytes_eq_sound : (xs ys : Bytes) → bytes_eq xs ys ≡ true → xs ≡ ys
unfolding bytes_eq
bytes_eq_sound [] [] h = refl
bytes_eq_sound [] (y ∷ ys) h = cc
bytes_eq_sound (x ∷ xs) [] h = cc
bytes_eq_sound (x ∷ xs) (y ∷ ys) h = ground (arith, bytes_eq_sound xs ys)

pub bytes_eq_refl : (xs : Bytes) → bytes_eq xs xs ≡ true
unfolding bytes_eq
bytes_eq_refl [] = refl
bytes_eq_refl (x ∷ xs) = ground (arith, bytes_eq_refl xs)
