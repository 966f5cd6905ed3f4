-- ===== src/Plfsio/Cuckoo/Kept.antt =====
-- A cuckoo table keeps every key and value that was added to it: each stands in one of its two
-- buckets, or is the victim of a full table.
use native.Mathlib.Nat.{
  mul-add-div_right, div-lt_iff_lt-mul, mul-add-mod_self_right, mod-lt, mod-eq_of_lt, div-eq_of_lt,
  mul-le-mul_right, pow-le-pow_right,
}
use deltafs.Prelude.{
  ℕ, zero, suc, ◌+◌, ◌*◌, ◌%◌, ◌^◌, ◌<◌, ◌≤◌, ◌≡◌, ◌≢◌, refl, true, ◌==◌, length, length-set,
  get_or, get_or-set_self, get_or-set_ne, arith, ◌⊎◌, inl, inr, Bool-cases, ◌∙◌,
}
use deltafs.Plfsio.Cuckoo.Bits.{other_bucket, pow_pos}
use deltafs.Plfsio.Cuckoo.Power.{pow_add}
use deltafs.Plfsio.Cuckoo.Table.{
  Bucket, Table, no_keys, cell, set_cell, read, fuse, key_of, value_of, write,
}

pub cell-set_cell_self : (b : Bucket) (j x : ℕ) → j < 4 → cell (set_cell b j x) j ≡ x
cell-set_cell_self b zero x h = refl
cell-set_cell_self b (suc zero) x h = refl
cell-set_cell_self b (suc (suc zero)) x h = refl
cell-set_cell_self b (suc (suc (suc zero))) x h = refl
cell-set_cell_self b (suc (suc (suc (suc j)))) x h = absurd (omega arith)

pub cell-set_cell_ne : (b : Bucket) (j l x : ℕ) → j ≢ l → cell (set_cell b j x) l ≡ cell b l
cell-set_cell_ne b zero zero x h = absurd (h refl)
cell-set_cell_ne b zero (suc zero) x h = refl
cell-set_cell_ne b zero (suc (suc zero)) x h = refl
cell-set_cell_ne b zero (suc (suc (suc zero))) x h = refl
cell-set_cell_ne b zero (suc (suc (suc (suc l)))) x h = refl
cell-set_cell_ne b (suc zero) zero x h = refl
cell-set_cell_ne b (suc zero) (suc zero) x h = absurd (h refl)
cell-set_cell_ne b (suc zero) (suc (suc zero)) x h = refl
cell-set_cell_ne b (suc zero) (suc (suc (suc zero))) x h = refl
cell-set_cell_ne b (suc zero) (suc (suc (suc (suc l)))) x h = refl
cell-set_cell_ne b (suc (suc zero)) zero x h = refl
cell-set_cell_ne b (suc (suc zero)) (suc zero) x h = refl
cell-set_cell_ne b (suc (suc zero)) (suc (suc zero)) x h = absurd (h refl)
cell-set_cell_ne b (suc (suc zero)) (suc (suc (suc zero))) x h = refl
cell-set_cell_ne b (suc (suc zero)) (suc (suc (suc (suc l)))) x h = refl
cell-set_cell_ne b (suc (suc (suc zero))) zero x h = refl
cell-set_cell_ne b (suc (suc (suc zero))) (suc zero) x h = refl
cell-set_cell_ne b (suc (suc (suc zero))) (suc (suc zero)) x h = refl
cell-set_cell_ne b (suc (suc (suc zero))) (suc (suc (suc zero))) x h = absurd (h refl)
cell-set_cell_ne b (suc (suc (suc zero))) (suc (suc (suc (suc l)))) x h = refl
cell-set_cell_ne b (suc (suc (suc (suc j)))) l x h = refl

module _ (k v : ℕ) where
  pub record IsTable (m : ℕ) (t : Table) : Type 0 where
    pub buckets : t.num_buckets ≡ 2 ^ m
    pub size : length t.space ≡ 2 ^ m
    pub small : m < 32
    pub cells : (i j : ℕ) → read t i j < 2 ^ (k + v)

  -- Bucket `b` is one of the two of fingerprint `f` in a table of `n` buckets.
  abbrev pub IsHome : ℕ → ℕ → ℕ → ℕ → Type 0
  IsHome n b home f = (b ≡ home) ⊎ (b ≡ other_bucket n home f)

  pub record Stored (t : Table) (home f value : ℕ) : Type 0 where
    pub bucket : ℕ
    pub slot : ℕ
    pub at_home : IsHome t.num_buckets bucket home f
    pub in_bucket : slot < 4
    pub key : key_of k v (read t bucket slot) ≡ f
    pub content : value_of k v (read t bucket slot) ≡ value % 2 ^ v

  pub record IsVictim (t : Table) (home f value : ℕ) : Type 0 where
    pub is_full : t.full ≡ true
    pub key : t.victim_fp ≡ f
    pub content : t.victim_data % 2 ^ v ≡ value % 2 ^ v
    pub at_home : IsHome t.num_buckets t.victim_index home f

  -- The table has the fingerprint with the low v bits of the value.
  abbrev pub Holds : Table → ℕ → ℕ → ℕ → Type 0
  Holds t home f value = Stored t home f value ⊎ IsVictim t home f value

  fuse_lt : (f value : ℕ) → f < 2 ^ k → f * 2 ^ v + value % 2 ^ v < 2 ^ (k + v)
  fuse_lt f value h =
      let low = mod-lt value (pow_pos v) in
      let high = mul-le-mul_right {m = suc f} {n = 2 ^ k} (2 ^ v) h in
      rw (pow_add k v) (grind arith)

  pub key_of-fuse : (f value : ℕ) → f < 2 ^ k → k ≤ 32 → key_of k v (fuse k v f value) ≡ f
  unfolding fuse
  key_of-fuse f value h small =
      let low = div-eq_of_lt (mod-lt value (pow_pos v)) in
      let wide = pow-le-pow_right {n = 2} (omega arith) small in
      rw
        (
          mod-eq_of_lt (fuse_lt f value h),
          mul-add-div_right {m = 2 ^ v} (pow_pos v) f (value % 2 ^ v),
          low,
        )
        (omega arith)

  pub value_of-fuse : (f value : ℕ) → f < 2 ^ k → value_of k v (fuse k v f value) ≡ value % 2 ^ v
  unfolding fuse
  value_of-fuse f value h =
      rw (mod-eq_of_lt (fuse_lt f value h), mul-add-mod_self_right f (2 ^ v) (value % 2 ^ v))
        (mod-eq_of_lt (mod-lt value (pow_pos v)))

  pub fuse_below : (f value : ℕ) → fuse k v f value < 2 ^ (k + v)
  unfolding fuse
  fuse_below f value = mod-lt _ (pow_pos (k + v))

  pub key_of_below : (x : ℕ) → x < 2 ^ (k + v) → key_of k v x < 2 ^ k
  key_of_below x h =
      let top =
        (div-lt_iff_lt-mul {k = 2 ^ v} {x = x} {y = 2 ^ k} (pow_pos v)).1 (rw (← pow_add k v) h) in
      omega arith

  -- What is read after a write.
  pub read-write_self :
      (i j f value : ℕ) (t : Table)
      → i < length t.space
      → j < 4
      → read (write k v i j f value t) i j ≡ fuse k v f value
  unfolding read write
  read-write_self i j f value t hi hj =
      rw
        (get_or-set_self t.space i (set_cell (get_or t.space i no_keys) j (fuse k v f value))
          no_keys hi)
        (cell-set_cell_self (get_or t.space i no_keys) j (fuse k v f value) hj)

  pub read-write_ne :
      (i j f value : ℕ) (t : Table) (i' j' : ℕ)
      → i < length t.space
      → (i ≢ i') ⊎ (j ≢ j')
      → read (write k v i j f value t) i' j' ≡ read t i' j'
  unfolding read write
  read-write_ne i j f value t i' j' hi h = elim (Bool-cases (i == i')) [
    | inl e ↦
        let same : i ≡ i' = ground arith in
        let apart : j ≢ j' = ground arith in
        rw
          (
            ← same,
            get_or-set_self t.space i (set_cell (get_or t.space i no_keys) j (fuse k v f value))
                no_keys hi,
          )
          (cell-set_cell_ne (get_or t.space i no_keys) j j' (fuse k v f value) apart)
    | inr e ↦
        let apart : i ≢ i' = ground arith in
        rw (
          get_or-set_ne t.space i i' (set_cell (get_or t.space i no_keys) j (fuse k v f value))
            no_keys apart)
  ]

  -- One cell, or not.
  pub same_cell : (i j i' j' : ℕ) → ((i ≡ i') × (j ≡ j')) ⊎ ((i ≢ i') ⊎ (j ≢ j'))
  same_cell i j i' j' = elim (Bool-cases (i == i')) [
    | inl e ↦ elim (Bool-cases (j == j')) [
      | inl e' ↦ inl (ground arith, ground arith)
      | inr e' ↦ inr (inr (ground arith))
    ]
    | inr e ↦ inr (inl (ground arith))
  ]

  pub write-IsTable :
      (m i j f value : ℕ) (t : Table)
      → IsTable m t
      → i < 2 ^ m
      → j < 4
      → IsTable m (write k v i j f value t)
  write-IsTable m i j f value t w hi hj = record {
    buckets = unfold write in w.buckets;
    size = unfold write in (length-set t.space i _ ∙ w.size);
    small = w.small;
    cells = λ i' j'. elim (same_cell i j i' j') [
      | inl same ↦
          rw (← same.0, ← same.1, read-write_self i j f value t (omega (arith, w.size)) hj)
            (fuse_below f value)
      | inr apart ↦
          rw (read-write_ne i j f value t i' j' (omega (arith, w.size)) apart) (w.cells i' j')
    ];
  }
