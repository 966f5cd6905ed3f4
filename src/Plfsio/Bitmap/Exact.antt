-- ===== src/Plfsio/Bitmap/Exact.antt =====
-- The uncompressed bitmap holds the keys that were set, and no others.
use deltafs.Prelude.{
  ℕ, zero, suc, ◌+◌, ◌*◌, ◌/◌, ◌%◌, ◌^◌, ◌<◌, ◌≤◌, ◌≡◌, refl, ◌∙◌, Bool, false, ◌||◌, ◌==◌, ltb,
  List, [], ◌∷◌, Bytes, length, replicate, get_or, All, arith, Bool-cases, inl, inr,
}
use deltafs.Plfsio.Bytewise.{
  IsByte, set_bit, test_bit, test_bit_of_zero, set_bit-IsByte, length-set_bit, test_bit-set_bit,
}
use deltafs.Plfsio.Bloom.Matches.{replicate-IsByte, length-replicate}
use deltafs.Plfsio.Bitmap.{reset, set_all, test}
use deltafs.Plfsio.Delta.Sorted.{member}

set_all-test_bit :
    (i : ℕ) (ks : List ℕ) (space : Bytes)
    → All IsByte space
    → All (λ k. k < length space * 8) ks
    → test_bit i (set_all ks space) ≡ (member i ks || test_bit i space)
unfolding set_all
set_all-test_bit i [] space b h = refl
set_all-test_bit i (k ∷ ks) space b h =
    let len = length-set_bit k space in
    set_all-test_bit i ks (set_bit k space) (set_bit-IsByte k space b) (rw len h.1)
    ∙ rw (test_bit-set_bit i k space b (omega arith))
        (swap (member i ks) (k == i) (test_bit i space))
  where
    swap : (a b c : Bool) → (a || (b || c)) ≡ ((b || a) || c)
    swap a b c = ground arith

length-set_all : (ks : List ℕ) (space : Bytes) → length (set_all ks space) ≡ length space
unfolding set_all
length-set_all [] space = refl
length-set_all (k ∷ ks) space = length-set_all ks (set_bit k space) ∙ length-set_bit k space

get_or-replicate : (n i : ℕ) → get_or {A = ℕ} (replicate n 0) i 0 ≡ 0
get_or-replicate zero i = refl
get_or-replicate (suc n) zero = refl
get_or-replicate (suc n) (suc i) = get_or-replicate n i

test_bit-replicate : (n i : ℕ) → test_bit i (replicate n 0) ≡ false
unfolding test_bit
test_bit-replicate n i = rw (get_or-replicate n (i / 8)) (test_bit_of_zero (i % 8) (omega arith))

All-below : (n m : ℕ) (ks : List ℕ) → n ≤ m → All (λ k. k < n) ks → All (λ k. k < m) ks
All-below n m [] l h = tt
All-below n m (k ∷ ks) l h = (omega arith, All-below n m ks l h.1)

member_bounded : (i n : ℕ) (ks : List ℕ) → All (λ k. k < n) ks → n ≤ i → member i ks ≡ false
member_bounded i n [] h l = refl
member_bounded i n (k ∷ ks) h l = ground (arith, member_bounded i n ks)

-- The test, where the bitmap has bits for all the keys.
test_space :
    (n i : ℕ) (ks : List ℕ)
    → All (λ k. k < n * 8) ks
    → test i (set_all ks (replicate n 0)) ≡ member i ks
unfolding test
test_space n i ks h =
    let len = length-set_all ks (replicate n 0) ∙ length-replicate n in
    elim (Bool-cases (ltb i (n * 8))) [
      | inl e ↦
          rw
            (
              len,
              e,
              set_all-test_bit i ks (replicate n 0) (replicate-IsByte n)
                  (rw (length-replicate n) h),
              test_bit-replicate n i,
            )
            (or_false (member i ks))
      | inr e ↦ rw (len, e, member_bounded i (n * 8) ks h (ground arith))
    ]
  where
    or_false : (b : Bool) → (b || false) ≡ b
    or_false b = ground arith

-- A bitmap over keys of some width, into which a list of such keys was set, tests true for the keys of
-- the list and for no others.
pub test-set_all :
    (key_bits : ℕ) (ks : List ℕ) (i : ℕ)
    → All (λ k. k < 2 ^ key_bits) ks
    → test i (set_all ks (reset key_bits)) ≡ member i ks
unfolding reset
test-set_all key_bits ks i h =
    test_space ((2 ^ key_bits + 7) / 8) i ks (All-below (2 ^ key_bits) _ ks (omega arith) h)
