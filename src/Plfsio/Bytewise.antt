-- ===== src/Plfsio/Bytewise.antt =====
-- Bits of a byte string, as the filters of src/libdeltafs/plfsio/v1/filter.cc set and test them:
-- bit `i` is bit `i % 8` of byte `i / 8`.
use Prim.Native.Nat.{bit_and, bit_or}
use deltafs.Prelude.{
  ℕ, zero, suc, ◌/◌, ◌%◌, ◌^◌, ◌<◌, ◌≡◌, ◌≢◌, refl, Bool, true, false, ◌&&◌, ◌||◌, not, ◌==◌, ltb,
  [], ◌∷◌, Bytes, get_or, set, length-set, get_or-set_self, get_or-set_ne, length, All, arith, ◌∙◌,
  Bool-cases, inl, inr,
}

abbrev pub IsByte : ℕ → Type 0
IsByte b = b < 256

-- b | (1 << j), and (b & (1 << j)) != 0.
unfoldable pub set_bit_of : ℕ → ℕ → ℕ
set_bit_of b j = bit_or b (2 ^ j)

unfoldable pub test_bit_of : ℕ → ℕ → Bool
test_bit_of b j = not (bit_and b (2 ^ j) == 0)

unfoldable pub set_bit : ℕ → Bytes → Bytes
set_bit i bs = set bs (i / 8) (set_bit_of (get_or bs (i / 8) 0) (i % 8))

unfoldable pub test_bit : ℕ → Bytes → Bool
test_bit i bs = test_bit_of (get_or bs (i / 8) 0) (i % 8)

all_below : ℕ → (ℕ → Bool) → Bool
all_below zero p = true
all_below (suc n) p = p n && all_below n p

all_below_sound : (n : ℕ) (p : ℕ → Bool) (i : ℕ) → all_below n p ≡ true → i < n → p i ≡ true
unfolding all_below
all_below_sound zero p i h lt = absurd (omega arith)
all_below_sound (suc n) p i h lt = ground (arith, all_below_sound n p i)

abbrev bool_eq : Bool → Bool → Bool
bool_eq true b = b
bool_eq false b = not b

abbrev byte_law : ℕ → ℕ → ℕ → Bool
byte_law b j i = bool_eq (test_bit_of (set_bit_of b j) i) ((j == i) || test_bit_of b i)

table_set : all_below 256 (λ b. all_below 8 (λ j. ltb (set_bit_of b j) 256)) ≡ true
unfolding all_below set_bit_of
table_set = refl

table_test : all_below 256 (λ b. all_below 8 (λ j. all_below 8 (λ i. byte_law b j i))) ≡ true
unfolding all_below set_bit_of test_bit_of
table_test = refl

set_bit_of-IsByte : (b j : ℕ) → IsByte b → j < 8 → IsByte (set_bit_of b j)
set_bit_of-IsByte b j hb hj = ground (
  arith,
  all_below_sound 8 (λ j. ltb (set_bit_of b j) 256) j (all_below_sound 256 _ b table_set hb) hj,
)

bool_eq_sound : (a b : Bool) → bool_eq a b ≡ true → a ≡ b
bool_eq_sound true b h = ground arith
bool_eq_sound false b h = ground arith

test_bit_of-set_bit_of :
    (b j i : ℕ)
    → IsByte b
    → j < 8
    → i < 8
    → test_bit_of (set_bit_of b j) i ≡ ((j == i) || test_bit_of b i)
test_bit_of-set_bit_of b j i hb hj hi =
    bool_eq_sound _ _
      (all_below_sound 8 _ i (all_below_sound 8 _ j (all_below_sound 256 _ b table_test hb) hj) hi)

get_or-IsByte : (bs : Bytes) (n : ℕ) → All IsByte bs → IsByte (get_or bs n 0)
get_or-IsByte [] n h = omega arith
get_or-IsByte (b ∷ bs) zero h = h.0
get_or-IsByte (b ∷ bs) (suc n) h = get_or-IsByte bs n h.1

set-IsByte : (bs : Bytes) (n v : ℕ) → All IsByte bs → IsByte v → All IsByte (set bs n v)
set-IsByte [] n v h hv = tt
set-IsByte (b ∷ bs) zero v h hv = (hv, h.1)
set-IsByte (b ∷ bs) (suc n) v h hv = (h.0, set-IsByte bs n v h.1 hv)

pub set_bit-IsByte : (i : ℕ) (bs : Bytes) → All IsByte bs → All IsByte (set_bit i bs)
unfolding set_bit
set_bit-IsByte i bs h =
    set-IsByte bs (i / 8) _ h
      (set_bit_of-IsByte _ (i % 8) (get_or-IsByte bs (i / 8) h) (omega arith))

pub length-set_bit : (i : ℕ) (bs : Bytes) → length (set_bit i bs) ≡ length bs
unfolding set_bit
length-set_bit i bs = length-set bs _ _

same_rest : (i j : ℕ) → j / 8 ≡ i / 8 → (j % 8 == i % 8) ≡ (j == i)
same_rest i j h = ground arith

-- Setting a bit sets it and no other.
pub test_bit-set_bit :
    (i j : ℕ) (bs : Bytes)
    → All IsByte bs
    → j / 8 < length bs
    → test_bit i (set_bit j bs) ≡ ((j == i) || test_bit i bs)
unfolding test_bit set_bit
test_bit-set_bit i j bs h lt = elim (Bool-cases (j / 8 == i / 8)) [
  | inl e ↦
      let same : j / 8 ≡ i / 8 = ground arith in
      rw (← same, get_or-set_self bs (j / 8) _ 0 lt)
        (test_bit_of-set_bit_of _ (j % 8) (i % 8) (get_or-IsByte bs (j / 8) h) (omega arith)
            (omega arith)
          ∙ rw (same_rest i j same))
  | inr e ↦
      let other : j / 8 ≢ i / 8 = ground arith in
      let apart : (j == i) ≡ false = ground arith in
      rw (get_or-set_ne bs (j / 8) (i / 8) _ 0 other, apart)
]

pub test_bit_of_zero : (j : ℕ) → j < 8 → test_bit_of 0 j ≡ false
unfolding test_bit_of all_below
test_bit_of_zero j h =
    let e = all_below_sound 8 (λ k. not (test_bit_of 0 k)) j refl h in ground arith
