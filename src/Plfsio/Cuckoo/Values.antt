-- ===== src/Plfsio/Cuckoo/Values.antt =====
-- The values that Fetch of src/libdeltafs/plfsio/v1/cuckoo.cc collects from two buckets.
use native.Mathlib.Nat.{mod-lt, mod-eq_of_lt}
use deltafs.Prelude.{
  ℕ, zero, suc, ◌+◌, ◌%◌, ◌^◌, ◌<◌, ◌≤◌, ◌≡◌, Bool, true, false, ◌==◌, ==_iff, List, [], ◌∷◌, ◌++◌,
  if◌then◌else◌, arith, ◌⊎◌, inl, inr, Bool-cases, ◌∙◌,
}
use deltafs.Plfsio.Cuckoo.Bits.{pow_pos}
use deltafs.Plfsio.Cuckoo.Table.{Bucket, cell, key_of, value_of, any_key}
use deltafs.Plfsio.Cuckoo.Filter.{gather_values}

module _ (k v : ℕ) where
  -- One of the values has the low v bits of the value.
  abbrev pub HasValue : ℕ → List ℕ → Type 0
  HasValue value [] = ⊥
  HasValue value (x ∷ xs) = (x % 2 ^ v ≡ value % 2 ^ v) ⊎ HasValue value xs

  pub HasValue-append : (value : ℕ) (xs ys : List ℕ) → HasValue value xs → HasValue value (xs ++ ys)
  HasValue-append value [] ys h = elim h [ ]
  HasValue-append value (x ∷ xs) ys (inl e) = inl e
  HasValue-append value (x ∷ xs) ys (inr h) = inr (HasValue-append value xs ys h)

  pub HasValue-append_last :
      (value : ℕ) (xs : List ℕ) (x : ℕ) → x % 2 ^ v ≡ value % 2 ^ v → HasValue value (xs ++ x ∷ [])
  HasValue-append_last value [] x e = inl e
  HasValue-append_last value (z ∷ xs) x e = inr (HasValue-append_last value xs x e)

  pub any_key_at :
      (fp : ℕ) (b1 b2 : Bucket) (left j l : ℕ)
      → j ≤ l
      → l < left + j
      → (key_of k v (cell b1 l) ≡ fp) ⊎ (key_of k v (cell b2 l) ≡ fp)
      → any_key k v fp b1 b2 left j ≡ true
  unfolding any_key
  any_key_at fp b1 b2 zero j l p q h = absurd (omega arith)
  any_key_at fp b1 b2 (suc left) j l p q h = elim (Bool-cases (j == l)) [
    | inl e ↦
        let same : j ≡ l = ground arith in
        let here : (key_of k v (cell b1 j) ≡ fp) ⊎ (key_of k v (cell b2 j) ≡ fp) = rw same h in
        ground arith
    | inr e ↦
        let rest = any_key_at fp b1 b2 left (suc j) l (ground arith) (omega arith) h in ground arith
  ]

  pub keeps_if :
      (value : ℕ) (b : Bool) (x : ℕ) (xs : List ℕ)
      → HasValue value xs
      → HasValue value (if b then xs ++ x ∷ [] else xs)
  keeps_if value true x xs h = HasValue-append value xs (x ∷ []) h
  keeps_if value false x xs h = h

  pub gets_if :
      (value fp x : ℕ) (xs : List ℕ)
      → (key_of k v x ≡ fp) × (value_of k v x ≡ value % 2 ^ v)
      → HasValue value (if key_of k v x == fp then xs ++ value_of k v x ∷ [] else xs)
  gets_if value fp x xs (e, e') =
      let same = mod-eq_of_lt (mod-lt x (pow_pos v)) in
      rw ((==_iff (key_of k v x) fp).1 e)
        (HasValue-append_last value xs (value_of k v x) (same ∙ e'))

  pub gather_keeps :
      (value fp : ℕ) (b1 b2 : Bucket) (left j : ℕ) (values : List ℕ)
      → HasValue value values
      → HasValue value (gather_values k v fp b1 b2 left j values)
  unfolding gather_values
  gather_keeps value fp b1 b2 zero j values h = h
  gather_keeps value fp b1 b2 (suc left) j values h = gather_keeps value fp b1 b2 left (suc j) _ (
      keeps_if value (key_of k v (cell b2 j) == fp) (value_of k v (cell b2 j)) _
        (keeps_if value (key_of k v (cell b1 j) == fp) (value_of k v (cell b1 j)) values h))

  pub gather_at :
      (value fp : ℕ) (b1 b2 : Bucket) (left j l : ℕ) (values : List ℕ)
      → j ≤ l
      → l < left + j
      → ((key_of k v (cell b1 l) ≡ fp) × (value_of k v (cell b1 l) ≡ value % 2 ^ v))
        ⊎ ((key_of k v (cell b2 l) ≡ fp) × (value_of k v (cell b2 l) ≡ value % 2 ^ v))
      → HasValue value (gather_values k v fp b1 b2 left j values)
  unfolding gather_values
  gather_at value fp b1 b2 zero j l values p q h = absurd (omega arith)
  gather_at value fp b1 b2 (suc left) j l values p q h = elim (Bool-cases (j == l)) [
    | inl e ↦
        let same : l ≡ j = ground arith in
        gather_keeps value fp b1 b2 left (suc j) _ (elim h [
          | inl here ↦
              keeps_if value (key_of k v (cell b2 j) == fp) (value_of k v (cell b2 j)) _
                (gets_if value fp (cell b1 j) values (rw (← same) here))
          | inr here ↦ gets_if value fp (cell b2 j) _ (rw (← same) here)
        ])
    | inr e ↦ gather_at value fp b1 b2 left (suc j) l _ (ground arith) (omega arith) h
  ]
