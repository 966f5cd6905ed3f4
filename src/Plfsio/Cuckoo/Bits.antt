-- ===== src/Plfsio/Cuckoo/Bits.antt =====
-- The bit operations of src/libdeltafs/plfsio/v1/cuckoo.cc and cuckoo.h: masks of low bits, the
-- other bucket of a fingerprint, and rounding up to a power of two.
use Prim.Native.Nat.{
  min, max, differ, bit_and, bit_or, bit_xor, digits, bit_and-bitwise, bit_or-bitwise,
  bit_xor-bitwise,
}
use deltafs.Prelude.{
  ℕ, zero, suc, ◌+◌, ◌-◌, ◌*◌, ◌/◌, ◌%◌, ◌^◌, ◌≤◌, ◌<◌, ◌≡◌, refl, arith, ◌⊎◌, inl, inr, ◌∙◌, ap,
}

-- x & (n - 1), for a number n of buckets.
abbrev pub masked : ℕ → ℕ → ℕ
masked x n = bit_and x (n - 1)

-- The constant of MurmurHash2; the product is a uint32_t.
unfoldable pub cuckoo_alt : ℕ → ℕ → ℕ
cuckoo_alt i fp = bit_xor i (fp * 0x5bd1e995 % 2 ^ 32)

-- The top k bits of a hash, but not 0.
unfoldable pub cuckoo_fingerprint : ℕ → ℕ → ℕ
cuckoo_fingerprint ha k =
    let fp = ha / 2 ^ (64 - k) % 2 ^ 32 in elim fp [ zero ↦ 1 | suc n ↦ suc n ]

module _ (z : ℕ → ℕ) (f : ℕ → ℕ → ℕ) (keeps : (b : ℕ) → z b ≡ z (b / 2) * 2 + f 0 (b % 2)) where
  -- A count that is large enough can be one larger.
  spare_count : (b a n : ℕ) → a ≤ n → digits z f (suc n) a b ≡ digits z f n a b
  spare_count b zero zero h = refl
  spare_count b zero (suc n) h = refl
  spare_count b (suc a) zero h = absurd (omega arith)
  spare_count b (suc a) (suc n) h =
      let low = f (suc a % 2) (b % 2) in
      ap (λ high. high * 2 + low) (spare_count (b / 2) (suc a / 2) n (omega arith))

  any_count : (b a spare : ℕ) → digits z f (spare + a) a b ≡ digits z f a a b
  any_count b a zero = ap (λ n. digits z f n a b) (omega arith)
  any_count b a (suc spare) =
      let next : suc spare + a ≡ suc (spare + a) = omega arith in
      ap (λ n. digits z f n a b) next
      ∙ (spare_count b a (spare + a) (omega arith) ∙ any_count b a spare)

  -- The lowest digit, and the others.
  digits_step :
      (a b : ℕ) → digits z f a a b ≡ digits z f (a / 2) (a / 2) (b / 2) * 2 + f (a % 2) (b % 2)
  digits_step zero b = omega (arith, keeps b)
  digits_step (suc a) b =
      let half = suc a / 2 in
      let count : a ≡ (a - half) + half = omega arith in
      let low = f (suc a % 2) (b % 2) in
      ap (λ n. digits z f n half (b / 2) * 2 + low) count
      ∙ ap (λ high. high * 2 + low) (any_count (b / 2) half (a - half))

bit_and_step : (a b : ℕ) → bit_and a b ≡ bit_and (a / 2) (b / 2) * 2 + min (a % 2) (b % 2)
bit_and_step a b = omega (
  arith,
  bit_and-bitwise a b,
  bit_and-bitwise (a / 2) (b / 2),
  digits_step (λ b. zero) min (λ b. omega arith) a b,
)

bit_xor_step : (a b : ℕ) → bit_xor a b ≡ bit_xor (a / 2) (b / 2) * 2 + differ (a % 2) (b % 2)
bit_xor_step a b = omega (
  arith,
  bit_xor-bitwise a b,
  bit_xor-bitwise (a / 2) (b / 2),
  digits_step (λ b. b) differ (λ b. omega arith) a b,
)

pub bit_or_step : (a b : ℕ) → bit_or a b ≡ bit_or (a / 2) (b / 2) * 2 + max (a % 2) (b % 2)
bit_or_step a b = omega (
  arith,
  bit_or-bitwise a b,
  bit_or-bitwise (a / 2) (b / 2),
  digits_step (λ b. b) max (λ b. omega arith) a b,
)

pub pow_pos : (m : ℕ) → 0 < 2 ^ m
pow_pos zero = omega arith
pow_pos (suc m) = omega (arith, pow_pos m)

masked_step : (x m : ℕ) → masked x (2 ^ suc m) ≡ masked (x / 2) (2 ^ m) * 2 + x % 2
masked_step x m =
    let half : (2 ^ suc m - 1) / 2 ≡ 2 ^ m - 1 = omega (arith, pow_pos m) in
    let odd : (2 ^ suc m - 1) % 2 ≡ 1 = omega (arith, pow_pos m) in
    rw (bit_and_step x (2 ^ suc m - 1), half, odd) (omega arith)

zero_or : (x : ℕ) → (x ≡ 0) ⊎ (0 < x)
zero_or zero = inl refl
zero_or (suc x) = inr (omega arith)

no_bits : (bound x : ℕ) → x < bound → bit_and x 0 ≡ 0
no_bits zero x h = absurd (omega arith)
no_bits (suc bound) x h = elim (zero_or x) [
  | inl none ↦ rw none refl
  | inr some ↦ omega (arith, bit_and_step x 0, no_bits bound (x / 2) (omega arith))
]

pub masked_lt : (x m : ℕ) → masked x (2 ^ m) < 2 ^ m
masked_lt x zero = omega (arith, no_bits (suc x) x (omega arith))
masked_lt x (suc m) = omega (arith, masked_step x m, masked_lt (x / 2) m)

-- The other bucket of a fingerprint among the buckets of a table, as the source masks it.
abbrev pub other_bucket : ℕ → ℕ → ℕ → ℕ
other_bucket n i fp = masked (cuckoo_alt i fp) n

differ_bits : (a b : ℕ) → a < 2 → b < 2 → (differ a b < 2) × (differ (differ a b) b ≡ a)
differ_bits zero zero p q = (omega arith, refl)
differ_bits zero (suc zero) p q = (omega arith, refl)
differ_bits (suc zero) zero p q = (omega arith, refl)
differ_bits (suc zero) (suc zero) p q = (omega arith, refl)
differ_bits (suc (suc a)) b p q = absurd (omega arith)
differ_bits a (suc (suc b)) p q = absurd (omega arith)

xor_step :
    (i c m : ℕ)
    → masked (bit_xor i c) (2 ^ suc m)
      ≡ masked (bit_xor (i / 2) (c / 2)) (2 ^ m) * 2 + differ (i % 2) (c % 2)
xor_step i c m =
    let low = differ_bits (i % 2) (c % 2) (omega arith) (omega arith) in
    let half : bit_xor i c / 2 ≡ bit_xor (i / 2) (c / 2) = omega (arith, bit_xor_step i c, low.0) in
    let bit : bit_xor i c % 2 ≡ differ (i % 2) (c % 2) = omega (arith, bit_xor_step i c, low.0) in
    rw (masked_step (bit_xor i c) m, half, bit)

xor_twice : (i c m : ℕ) → i < 2 ^ m → masked (bit_xor (masked (bit_xor i c) (2 ^ m)) c) (2 ^ m) ≡ i
xor_twice i c zero h = omega (arith, masked_lt (bit_xor (masked (bit_xor i c) (2 ^ zero)) c) zero)
xor_twice i c (suc m) h =
    let low = differ_bits (i % 2) (c % 2) (omega arith) (omega arith) in
    let y = masked (bit_xor i c) (2 ^ suc m) in
    let half : y / 2 ≡ masked (bit_xor (i / 2) (c / 2)) (2 ^ m) =
      omega (arith, xor_step i c m, low.0) in
    let bit : y % 2 ≡ differ (i % 2) (c % 2) = omega (arith, xor_step i c m, low.0) in
    rw (xor_step y c m, half, bit, low.1, xor_twice (i / 2) (c / 2) m (omega arith)) (omega arith)

-- The other bucket of the other bucket is the bucket itself, if the number of buckets is a power
-- of two.
pub other_bucket_twice :
    (i fp m : ℕ) → i < 2 ^ m → other_bucket (2 ^ m) (other_bucket (2 ^ m) i fp) fp ≡ i
unfolding cuckoo_alt
other_bucket_twice i fp m h = xor_twice i (fp * 0x5bd1e995 % 2 ^ 32) m h
