-- ===== src/Plfsio/Cuckoo/Stray.antt =====
-- MaybeBuildMoreTables of src/libdeltafs/plfsio/v1/cuckoo.cc ends; but when a further table is
-- filled, the key that filled it is added again from the bytes of the next one, and the last key is
-- read out of range.
use mathlib.Core.Bool.{true≢false}
use native.Mathlib.Nat.{zero-div}
use deltafs.Prelude.{
  ℕ, zero, suc, ◌+◌, ◌-◌, ◌^◌, ◌<◌, ◌≤◌, ◌≡◌, refl, Bool, true, false, ◌==◌, ltb, List, [], ◌∷◌,
  Bytes, length, get_or, take, drop, All, if◌then◌else◌, arith, ◌⊎◌, inl, inr, ◌∙◌, sym, ap,
}
use deltafs.Plfsio.Cuckoo.Bits.{masked, cuckoo_fingerprint}
use deltafs.Plfsio.Cuckoo.Table.{
  Table, Doubles, no_keys, empty_at, key_of, scan, write, add_moves, add_to, resize, reset_table,
  buckets_for,
}
use deltafs.Plfsio.Cuckoo.Block.{
  CuckooOptions, Common, Filled, stray_read, filled, Built, built, strayed, out_of_fuel, add_hashed,
  fill, build_more, head_or_zero, tail_of,
}
use deltafs.Plfsio.Cuckoo.Fresh.{get_or-replicate}
use deltafs.Plfsio.Cuckoo.More.{next_table, all_taken}

unfoldable pub sum : List ℕ → ℕ
sum [] = 0
sum (n ∷ ns) = n + sum ns

abbrev pub IsPositive : ℕ → Type 0
IsPositive n = 0 < n

length-drop {ℓ} :
    {A : Type ℓ} (n : ℕ) (xs : List A) → n ≤ length xs → length (drop n xs) + n ≡ length xs
length-drop zero xs h = omega arith
length-drop (suc n) [] h = absurd (omega arith)
length-drop (suc n) (x ∷ xs) h = omega (arith, length-drop n xs (omega arith))

-- How many bytes of the keys to be read are missing after a table is filled, if `gap` were before.
abbrev pub IsMissing : ℕ → Filled → Type 0
IsMissing gap stray_read = Unit
IsMissing gap (filled [] values start t rnd) = gap ≡ 0
IsMissing gap (filled (size ∷ sizes) values start t rnd) =
    All IsPositive (size ∷ sizes) × (length start + gap < sum (size ∷ sizes))

-- How many keys are left.
abbrev AreAtMost : ℕ → Filled → Type 0
AreAtMost n stray_read = Unit
AreAtMost n (filled sizes values start t rnd) = length sizes ≤ n

one_less : (n : ℕ) (f : Filled) → AreAtMost n f → AreAtMost (suc n) f
one_less n stray_read h = tt
one_less n (filled ns vs bs r rnd) h = omega arith

-- The ways that a round of filling goes.
round_ways :
    (P : Filled → Type 0) (ends full : Bool) (stopped next : Filled)
    → P stray_read
    → (ends ≡ false → full ≡ true → P stopped)
    → (ends ≡ false → P next)
    → P (elim ends as (λ x. Filled) [
      | true ↦ stray_read
      | false ↦ elim full as (λ x. Filled) [ true ↦ stopped | false ↦ next ]
    ])
round_ways P true full stopped next p q r = p
round_ways P false true stopped next p q r = q refl refl
round_ways P false false stopped next p q r = r refl

abbrev pub ran_out : Built → Bool
ran_out (built ts) = false
ran_out strayed = false
ran_out out_of_fuel = true

abbrev pub completes : Built → Bool
completes (built ts) = true
completes strayed = false
completes out_of_fuel = false

pub only_strays : (r : Built) → ran_out r ≡ false → completes r ≡ false → r ≡ strayed
only_strays (built ts) e e' = absurd (true≢false e')
only_strays strayed e e' = refl
only_strays out_of_fuel e e' = absurd (true≢false e)

module _ (d : Doubles) (c : Common) (o : CuckooOptions d) (k v : ℕ) where
  pub fill-IsMissing :
      (sizes values : List ℕ) (start : Bytes) (t : Table) (rnd gap : ℕ)
      → All IsPositive sizes
      → length start + gap ≡ sum sizes
      → IsMissing gap (fill d c o k v sizes values start t rnd)
  unfolding fill sum
  fill-IsMissing [] values start t rnd gap p e = omega arith
  fill-IsMissing (size ∷ sizes) values start t rnd gap (here, p) e =
      let x = if v == 0 then 0 else head_or_zero values in
      let r = add_hashed d c o k v (take size start) x t rnd in
      round_ways (IsMissing gap) (ltb (length start) size) r.0.full _ _ tt
        (λ e' full. let shorter = length-drop size start (ground arith) in ((here, p), omega arith))
        (λ e'.
          let shorter = length-drop size start (ground arith) in
          fill-IsMissing sizes (tail_of values) (drop size start) r.0 r.1 gap p (omega arith))

  fill-AreAtMost :
      (sizes values : List ℕ) (start : Bytes) (t : Table) (rnd : ℕ)
      → AreAtMost (length sizes) (fill d c o k v sizes values start t rnd)
  unfolding fill
  fill-AreAtMost [] values start t rnd = omega arith
  fill-AreAtMost (size ∷ sizes) values start t rnd =
      let x = if v == 0 then 0 else head_or_zero values in
      let r = add_hashed d c o k v (take size start) x t rnd in
      round_ways (AreAtMost (suc (length sizes))) (ltb (length start) size) r.0.full _ _ tt
        (λ e full. omega arith)
        (λ e. one_less _ _ (fill-AreAtMost sizes (tail_of values) (drop size start) r.0 r.1))

  scan-no_keys : (fp value : ℕ) → scan k v fp value no_keys 4 0 ≡ empty_at 0
  unfolding scan
  scan-no_keys fp value =
      let empty : (key_of k v 0 == 0) ≡ true = rw (zero-div (2 ^ v)) refl in rw empty refl

  add_to_takes :
      (max_moves ha fp value : ℕ) (t : Table) (rnd : ℕ)
      → 0 < max_moves
      → ((i : ℕ) → get_or t.space i no_keys ≡ no_keys)
      → t.full ≡ false
      → (add_to k v c.next_random max_moves ha fp value t rnd).0.full ≡ false
  unfolding add_to add_moves write
  add_to_takes zero ha fp value t rnd moves empty room = absurd (omega arith)
  add_to_takes (suc n) ha fp value t rnd moves empty room =
      let i = masked ha t.num_buckets in
      let found = ap (λ b. scan k v fp value b 4 0) (empty i) ∙ scan-no_keys fp value in
      rw (add_to, add_moves, found) room

  -- A key finds room in an empty table, if a move is allowed.
  next_table_takes :
      (key : Bytes) (value n rnd : ℕ)
      → 0 < o.cuckoo_max_moves
      → (add_hashed d c o k v key value (next_table d c o k v n) rnd).0.full ≡ false
  next_table_takes key value n rnd moves =
      unfold add_hashed resize in
      add_to_takes o.cuckoo_max_moves (c.xxhash key) (cuckoo_fingerprint (c.xxhash key) k) value
        (next_table d c o k v n) rnd moves
        (λ i. unfold resize in get_or-replicate (buckets_for d d.high_rate n) i no_keys)
        (unfold resize reset_table in refl)

  -- One table takes one key at least.
  fill_next-AreAtMost :
      (size n rnd : ℕ) (sizes values : List ℕ) (start : Bytes)
      → 0 < o.cuckoo_max_moves
      → AreAtMost
          (length sizes)
          (fill d c o k v (size ∷ sizes) values start (next_table d c o k v n) rnd)
  unfolding fill
  fill_next-AreAtMost size n rnd sizes values start moves =
      let x = if v == 0 then 0 else head_or_zero values in
      let t = next_table d c o k v n in
      let r = add_hashed d c o k v (take size start) x t rnd in
      let room = next_table_takes (take size start) x n rnd moves in
      round_ways (AreAtMost (length sizes)) (ltb (length start) size) r.0.full _ _ tt
        (λ e full. absurd (true≢false (sym full ∙ room)))
        (λ e. fill-AreAtMost sizes (tail_of values) (drop size start) r.0 r.1)

  -- A round of building, by what filling comes to.
  abbrev pub then_more : ℕ → List Table → Filled → Built
  then_more fuel ts stray_read = strayed
  then_more fuel ts (filled sizes values start t rnd) =
      build_more d c o k v fuel sizes values start rnd (t ∷ ts)

  pub build_ends :
      (fuel : ℕ) (sizes values : List ℕ) (start : Bytes) (rnd : ℕ) (ts : List Table)
      → 0 < o.cuckoo_max_moves
      → length sizes ≤ fuel
      → ran_out (build_more d c o k v fuel sizes values start rnd ts) ≡ false
  unfolding build_more
  build_ends zero [] values start rnd ts moves h = refl
  build_ends (suc fuel) [] values start rnd ts moves h = refl
  build_ends zero (size ∷ sizes) values start rnd ts moves h = absurd (omega arith)
  build_ends (suc fuel) (size ∷ sizes) values start rnd ts moves h =
      let n = length (size ∷ sizes) in
      go (fill d c o k v (size ∷ sizes) values start (next_table d c o k v n) rnd)
        (fill_next-AreAtMost size n rnd sizes values start moves)
        (λ ns vs bs r t few. build_ends fuel ns vs bs r (t ∷ ts) moves (omega arith))
    where
      go :
          (f : Filled)
          → AreAtMost (length sizes) f
          → ((ns vs : List ℕ) (bs : Bytes) (r : ℕ) (t : Table)
              → length ns ≤ length sizes
              → ran_out (build_more d c o k v fuel ns vs bs r (t ∷ ts)) ≡ false)
          → ran_out (then_more fuel ts f) ≡ false
      go stray_read few rest = refl
      go (filled ns vs bs t r) few rest = rest ns vs bs r t few

  pub missing_strays :
      (fuel : ℕ) (ts : List Table) (gap : ℕ) (f : Filled)
      → (all_taken f ≡ false) ⊎ (0 < gap)
      → IsMissing gap f
      → ((ns vs : List ℕ) (bs : Bytes) (r : ℕ) (t : Table)
          → All IsPositive ns
          → length bs < sum ns
          → completes (build_more d c o k v fuel ns vs bs r (t ∷ ts)) ≡ false)
      → completes (then_more fuel ts f) ≡ false
  unfolding all_taken
  missing_strays fuel ts gap stray_read h missing rest = refl
  missing_strays fuel ts gap (filled [] vs bs t r) (inl e) missing rest = absurd (true≢false e)
  missing_strays fuel ts gap (filled [] vs bs t r) (inr some) missing rest = absurd (omega arith)
  missing_strays fuel ts gap (filled (n ∷ ns) vs bs t r) h (p, few) rest =
      rest (n ∷ ns) vs bs r t p (omega arith)

  pub build_strays :
      (fuel : ℕ) (sizes values : List ℕ) (start : Bytes) (rnd : ℕ) (ts : List Table)
      → All IsPositive sizes
      → length start < sum sizes
      → completes (build_more d c o k v fuel sizes values start rnd ts) ≡ false
  unfolding build_more
  build_strays fuel [] values start rnd ts p h = absurd (unfold sum in (omega arith))
  build_strays zero (size ∷ sizes) values start rnd ts p h = refl
  build_strays (suc fuel) (size ∷ sizes) values start rnd ts p h =
      let n = length (size ∷ sizes) in
      let gap = sum (size ∷ sizes) - length start in
      missing_strays fuel ts gap
        (fill d c o k v (size ∷ sizes) values start (next_table d c o k v n) rnd)
        (inr (omega arith))
        (fill-IsMissing (size ∷ sizes) values start (next_table d c o k v n) rnd gap p
          (omega arith))
        (λ ns vs bs r t q few. build_strays fuel ns vs bs r (t ∷ ts) q few)
