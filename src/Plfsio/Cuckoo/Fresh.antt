-- ===== src/Plfsio/Cuckoo/Fresh.antt =====
-- The empty tables of CuckooTable::Reset and Resize of src/libdeltafs/plfsio/v1/cuckoo.cc.
use native.Mathlib.Nat.{pow-le-pow_right}
use native.Mathlib.Decide.{dec_lt}
use deltafs.Prelude.{
  ℕ, zero, suc, ◌+◌, ◌%◌, ◌^◌, ◌<◌, ◌≤◌, ◌≡◌, refl, true, ◌==◌, length, replicate, get_or,
  if◌then◌else◌, arith, inl, inr, Bool-cases, ◌∙◌, ap,
}
use deltafs.Plfsio.Cuckoo.Bits.{pow_pos}
use deltafs.Plfsio.Cuckoo.Power.{upper_power2, upper_power2_bounds}
use deltafs.Plfsio.Cuckoo.Table.{
  Table, Doubles, u32_mod, no_keys, cell, read, buckets_for, resize, reset_table,
}
use deltafs.Plfsio.Cuckoo.Kept.{IsTable}

length-replicate {ℓ} : {A : Type ℓ} (n : ℕ) (a : A) → length (replicate n a) ≡ n
length-replicate zero a = refl
length-replicate (suc n) a = ap suc (length-replicate n a)

pub get_or-replicate {ℓ} : {A : Type ℓ} (n i : ℕ) (a : A) → get_or (replicate n a) i a ≡ a
get_or-replicate zero i a = refl
get_or-replicate (suc n) zero a = refl
get_or-replicate (suc n) (suc i) a = get_or-replicate n i a

pub cell-no_keys : (j : ℕ) → cell no_keys j ≡ 0
cell-no_keys zero = refl
cell-no_keys (suc zero) = refl
cell-no_keys (suc (suc zero)) = refl
cell-no_keys (suc (suc (suc zero))) = refl
cell-no_keys (suc (suc (suc (suc j)))) = refl

exponent_lt : (m : ℕ) → 2 ^ m < 2 ^ 32 → m < 32
exponent_lt m h = elim (dec_lt m 32) [
  | yes p ↦ p
  | no p ↦ absurd (omega (arith, pow-le-pow_right {n = 2} (omega arith) (at_least m p)))
]
  where
    at_least : (n : ℕ) → (n < 32 → ⊥) → 32 ≤ n
    at_least n h = omega arith

rounded :
    (b : ℕ) → b ≤ 2 ^ 31 → (m : ℕ) × ((if b == 0 then 1 else upper_power2 b) ≡ 2 ^ m) × (m < 32)
rounded b h = elim (Bool-cases (b == 0)) [
  | inl e ↦ (0, rw e refl, omega arith)
  | inr e ↦
      let (m, power, above, below) = upper_power2_bounds b (ground arith) (omega arith) in
      (m, rw e power, exponent_lt m (omega arith))
]

module _ (d : Doubles) where
  -- At this rate no number of keys needs more than 2 ^ 31 buckets.
  abbrev pub IsRate : d.Double → Type 0
  IsRate frac = d.positive frac ≡ true → (n : ℕ) → n < u32_mod → d.ceil_buckets frac n ≤ 2 ^ 31

  -- The number of buckets is a power of two.
  pub buckets_for_power :
      (frac : d.Double) (num_keys : ℕ)
      → IsRate frac
      → (m : ℕ) × (buckets_for d frac num_keys ≡ 2 ^ m) × (m < 32)
  unfolding buckets_for
  buckets_for_power frac num_keys rate =
      let n = (num_keys + 3) % u32_mod in
      rounded _ (elim (Bool-cases (d.positive frac)) [
        | inl e ↦ rw e (rate e n (omega arith))
        | inr e ↦ rw e (omega arith)
      ])

  module _ (k v : ℕ) (frac : d.Double) (num_keys : ℕ) (rate : IsRate frac) where
    no_cells : (n i j : ℕ) → cell (get_or (replicate n no_keys) i no_keys) j < 2 ^ (k + v)
    no_cells n i j = rw (get_or-replicate n i no_keys, cell-no_keys j) (pow_pos (k + v))

    pub reset_table-IsTable : (m : ℕ) × IsTable k v m (reset_table d frac num_keys)
    unfolding reset_table read
    reset_table-IsTable =
        let (m, power, small) = buckets_for_power frac num_keys rate in
        (
          m,
          record {
            buckets = power;
            size = length-replicate (buckets_for d frac num_keys) no_keys ∙ power;
            small = small;
            cells = λ i j. no_cells (buckets_for d frac num_keys) i j;
          },
        )

    pub resize-IsTable : (t : Table) → (m : ℕ) × IsTable k v m (resize d frac num_keys t)
    unfolding resize read
    resize-IsTable t =
        let (m, power, small) = buckets_for_power frac num_keys rate in
        (
          m,
          record {
            buckets = power;
            size = length-replicate (buckets_for d frac num_keys) no_keys ∙ power;
            small = small;
            cells = λ i j. no_cells (buckets_for d frac num_keys) i j;
          },
        )
