-- ===== src/Plfsio/Cuckoo/Power.antt =====
-- UpperPower2 of src/libdeltafs/plfsio/v1/cuckoo.cc rounds up to a power of two.
use Prim.Native.Nat.{max, bit_or}
use native.Mathlib.Nat.{
  div-div-eq-div-mul, div-lt_iff_lt-mul, le-div_iff_mul-le, mul_comm, mul_assoc, add-zero, mul-one,
}
use native.Mathlib.Decide.{dec_lt}
use deltafs.Prelude.{
  ℕ, zero, suc, ◌+◌, ◌-◌, ◌*◌, ◌/◌, ◌%◌, ◌^◌, ◌≤◌, ◌<◌, ◌≡◌, refl, arith, ◌∙◌, sym, ap,
}
use deltafs.Plfsio.Cuckoo.Bits.{bit_or_step, pow_pos}

-- x |= x >> s
abbrev spread_by : ℕ → ℕ → ℕ
spread_by s x = bit_or x (x / 2 ^ s)

abbrev spread : ℕ → ℕ
spread x = spread_by 32 (spread_by 16 (spread_by 8 (spread_by 4 (spread_by 2 (spread_by 1 x)))))

unfoldable pub upper_power2 : ℕ → ℕ
upper_power2 x = (spread ((x + (2 ^ 64 - 1)) % 2 ^ 64) + 1) % 2 ^ 64

-- A function that halves with its argument, and is odd on the numbers of s binary digits but 0.
record Spreads (s : ℕ) (g : ℕ → ℕ) : Type 0 where
  half : (x : ℕ) → g x / 2 ≡ g (x / 2)
  odd : (x : ℕ) → 0 < x → x < 2 ^ s → g x % 2 ≡ 1

div_swap : (x c d : ℕ) → x / c / d ≡ x / d / c
div_swap x c d =
    div-div-eq-div-mul x c d ∙ ap (λ m. x / m) (mul_comm c d) ∙ sym (div-div-eq-div-mul x d c)

pow_suc : (s : ℕ) → 2 ^ suc s ≡ 2 ^ s * 2
pow_suc s = omega arith

div_pow : (x s : ℕ) → x / 2 ^ suc s ≡ x / 2 ^ s / 2
div_pow x s = rw (pow_suc s) (sym (div-div-eq-div-mul x (2 ^ s) 2))

div_one : (x : ℕ) → x / 2 ^ zero ≡ x
div_one x = omega arith

shift_in :
    (s : ℕ) (g : ℕ → ℕ) → ((x : ℕ) → g x / 2 ≡ g (x / 2)) → (x : ℕ) → g x / 2 ^ s ≡ g (x / 2 ^ s)
shift_in zero g half x = rw (div_one (g x), div_one x)
shift_in (suc s) g half x =
    rw (div_pow (g x) s, div_pow x s, shift_in s g half x) (half (x / 2 ^ s))

spread_by_half : (s x : ℕ) → spread_by s x / 2 ≡ spread_by s (x / 2)
spread_by_half s x = rw (← div_swap x (2 ^ s) 2) (omega (arith, bit_or_step x (x / 2 ^ s)))

spread_by_bit : (s x : ℕ) → spread_by s x % 2 ≡ max (x % 2) (x / 2 ^ s % 2)
spread_by_bit s x = omega (arith, bit_or_step x (x / 2 ^ s))

pub pow_add : (s t : ℕ) → 2 ^ (s + t) ≡ 2 ^ s * 2 ^ t
pow_add s zero = rw (add-zero s) (sym (mul-one (2 ^ s)))
pow_add s (suc t) =
    let next : s + suc t ≡ suc (s + t) = omega arith in
    rw (next, pow_suc (s + t), pow_suc t, pow_add s t) (mul_assoc (2 ^ s) (2 ^ t) 2)

-- One half of the digits is not 0.
some_digit :
    (s : ℕ) (g : ℕ → ℕ)
    → Spreads s g
    → (x : ℕ) → 0 < x
    → x < 2 ^ (s + s)
    → max (g x % 2) (g (x / 2 ^ s) % 2) ≡ 1
some_digit s g h x some lt = elim (dec_lt x (2 ^ s)) [
  | yes small ↦ omega (arith, h.odd x some small)
  | no large ↦
      let top =
        (div-lt_iff_lt-mul {k = 2 ^ s} {x = x} {y = 2 ^ s} (pow_pos s)).1 (rw (← pow_add s s) lt) in
      let bottom = (le-div_iff_mul-le {k = 2 ^ s} {x = 1} {y = x} (pow_pos s)).1 (omega arith) in
      omega (arith, h.odd (x / 2 ^ s) bottom top)
]

spread_by-Spreads : (s : ℕ) (g : ℕ → ℕ) → Spreads s g → Spreads (s + s) (λ x. spread_by s (g x))
spread_by-Spreads s g h = record {
  half = λ x. spread_by_half s (g x) ∙ ap (spread_by s) (h.half x);
  odd = λ x some lt. rw (spread_by_bit s (g x), shift_in s g h.half x) (some_digit s g h x some lt);
}

spread-Spreads : Spreads 64 spread
spread-Spreads = spread_by-Spreads 32 _ (
    spread_by-Spreads 16 _ (
      spread_by-Spreads 8 _ (
        spread_by-Spreads 4 _ (
          spread_by-Spreads 2 _ (
            spread_by-Spreads 1 (λ x. x)
              (record { half = λ x. refl; odd = λ x some lt. omega arith }))))))

spread_up :
    (n x : ℕ)
    → x ≤ n
    → x < 2 ^ 64
    → (m : ℕ) × (spread x + 1 ≡ 2 ^ m) × (x < 2 ^ m) × (2 ^ m ≤ max 1 (2 * x))
spread_up n zero p q = (0, refl, omega arith, omega arith)
spread_up zero (suc x) p q = absurd (omega arith)
spread_up (suc n) (suc x) p q =
    let (m, up, above, below) = spread_up n (suc x / 2) (omega arith) (omega arith) in
    let half = spread-Spreads.half (suc x) in
    let odd = spread-Spreads.odd (suc x) (omega arith) q in
    (suc m, omega arith, omega arith, omega arith)

-- The number is rounded up to a power of two, and to less than twice the number.
pub upper_power2_bounds :
    (x : ℕ)
    → 0 < x
    → x ≤ 2 ^ 62
    → (m : ℕ) × (upper_power2 x ≡ 2 ^ m) × (x ≤ 2 ^ m) × (2 ^ m < 2 * x)
unfolding upper_power2
upper_power2_bounds x some lt =
    let (m, up, above, below) = spread_up (x - 1) (x - 1) (omega arith) (omega arith) in
    let pred : (x + (2 ^ 64 - 1)) % 2 ^ 64 ≡ x - 1 = omega arith in
    (m, rw (pred, up) (omega arith), omega arith, omega arith)
