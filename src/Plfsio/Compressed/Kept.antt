-- ===== src/Plfsio/Compressed/Kept.antt =====
-- Iter finds the keys that were set, from Reset on.
use deltafs.Prelude.{
  ℕ, zero, suc, ◌+◌, ◌-◌, ◌*◌, ◌/◌, ◌^◌, ◌<◌, ◌≤◌, ◌≡◌, refl, ◌∙◌, ap, false, ◌||◌, List, [], ◌∷◌,
  some, length, replicate, arith,
}
use native.Mathlib.Nat.{pow-le-pow_right}
use native.Mathlib.Numerals.{towards_suc}
use deltafs.Plfsio.Compressed.{Row, Compressed, reset, set_in, set, set_all, sort, buckets_of}
use deltafs.Plfsio.Compressed.Ranges.{
  count_in, count_in-append, count_in-sort, Ranged, AllBelow, AllBelow-append, sort-Ranged,
}
use deltafs.Plfsio.Compressed.Fetched.{held, AreBytes, Fits, iter-Iterates}
use deltafs.Plfsio.Compressed.Filled.{AreRows, AreRows-other, set_in-SetsIn}
use deltafs.Plfsio.Delta.{u32_mod}
use deltafs.Plfsio.Delta.Sorted.{member, member_any, InBuckets, member-append, member-sort}

-- `n` buckets, which hold the keys `done`.
record Holds (n : ℕ) (done : List ℕ) (c : Compressed) : Type 0 where
  rows :
      AreRows c.estimated_bucket_size
        (λ b. count_in b done)
        (λ b. count_in b c.extra_keys)
        0
        c.working_space
  buckets : length c.working_space ≡ n
  below : AllBelow (n * 256) c.extra_keys
  same : (bit : ℕ) → (held bit 0 c.working_space || member bit c.extra_keys) ≡ member bit done

set_in_below :
    (hi estimated i j : ℕ) (rows : List Row) → i < hi → AllBelow hi (set_in estimated i j rows).1
set_in_below hi estimated i j [] h = tt
set_in_below hi estimated i zero (r ∷ rows) h = ground arith
set_in_below hi estimated i (suc j) (r ∷ rows) h = set_in_below hi estimated i j rows h

set-Holds :
    (n i : ℕ) (done : List ℕ) (c : Compressed)
    → i < n * 256
    → 1 + count_in (i / 256) done < 256
    → Holds n done c
    → Holds n (i ∷ done) (set i c)
unfolding set
set-Holds n i done c lt small h =
    let pushed = (set_in c.estimated_bucket_size i (i / 256) c.working_space).1 in
    let s =
      set_in-SetsIn c.estimated_bucket_size i (i / 256) 0 (λ b. count_in b done)
        (λ b. count_in b c.extra_keys) c.working_space (omega arith) (omega (arith, h.buckets))
        small h.rows in
    record {
      rows =
          AreRows-other c.estimated_bucket_size 0 _ _ _ _ _
            (λ b lt. (refl, count_in-append b c.extra_keys pushed)) s.all_rows;
      buckets = s.same_length ∙ h.buckets;
      below =
          AllBelow-append (n * 256) c.extra_keys pushed h.below
            (set_in_below (n * 256) c.estimated_bucket_size i (i / 256) c.working_space lt);
      same = λ bit. ground (arith, s.same bit, h.same bit, member-append bit c.extra_keys pushed);
    }

empty_rows :
    (size n b : ℕ)
    → AreRows size (λ c. 0) (λ c. 0) b (replicate n (record { size = 0; slots = replicate size 0 }))
empty_rows size zero b = tt
empty_rows size (suc n) b =
    ((refl, length_zeros size, zeros-AreBytes size, omega arith), empty_rows size n (b + 1))
  where
    length_zeros : (m : ℕ) → length (replicate {A = ℕ} m 0) ≡ m
    length_zeros zero = refl
    length_zeros (suc m) = ap suc (length_zeros m)

    zeros-AreBytes : (m : ℕ) → AreBytes (replicate m 0)
    zeros-AreBytes zero = tt
    zeros-AreBytes (suc m) = (omega arith, zeros-AreBytes m)

empty_held :
    (bit size n b : ℕ)
    → held bit b (replicate n (record { size = 0; slots = replicate size 0 })) ≡ false
empty_held bit size zero b = refl
empty_held bit size (suc n) b = empty_held bit size n (b + 1)

empty_length :
    (size n : ℕ)
    → length (replicate {A = Row} n (record { size = 0; slots = replicate size 0 })) ≡ n
empty_length size zero = refl
empty_length size (suc n) = ap suc (empty_length size n)

reset-Holds : (key_bits num_keys : ℕ) → Holds (2 ^ (key_bits - 8)) [] (reset key_bits num_keys)
unfolding reset
reset-Holds key_bits num_keys = record {
  rows = empty_rows _ (2 ^ (key_bits - 8)) 0;
  buckets = empty_length _ (2 ^ (key_bits - 8));
  below = tt;
  same = λ bit. rw (
      empty_held bit ((num_keys + 2 ^ (key_bits - 8) - 1) / 2 ^ (key_bits - 8)) (2 ^ (key_bits - 8))
        0);
}

-- The keys set, the last one first.
onto : List ℕ → List ℕ → List ℕ
onto [] done = done
onto (k ∷ ks) done = onto ks (k ∷ done)

member-onto :
    (bit : ℕ) (ks done : List ℕ) → member bit (onto ks done) ≡ (member bit ks || member bit done)
unfolding onto
member-onto bit [] done = refl
member-onto bit (k ∷ ks) done = ground (arith, member-onto bit ks (k ∷ done))

set_all-Holds :
    (n : ℕ) (ks done : List ℕ) (c : Compressed)
    → AllBelow (n * 256) ks
    → ((b : ℕ) → count_in b ks + count_in b done < 256)
    → Holds n done c
    → Holds n (onto ks done) (set_all ks c)
unfolding set_all onto
set_all-Holds n [] done c lt small h = h
set_all-Holds n (k ∷ ks) done c lt small h =
    set_all-Holds n ks (k ∷ done) (set k c) lt.1 (λ b. omega (arith, small b))
      (set-Holds n k done c lt.0 (ground (arith, small (k / 256))) h)

Fits-sort :
    (estimated b : ℕ) (keys : ℕ → ℕ) (extra : List ℕ) (rows : List Row)
    → AreRows estimated keys (λ c. count_in c extra) b rows
    → Fits (λ c. count_in c (sort extra)) b rows
Fits-sort estimated b keys extra [] h = tt
Fits-sort estimated b keys extra (r ∷ rows) h = (
  h.0.2,
  count_in-sort b extra ∙ omega (arith, h.0.3, h.0.1),
  Fits-sort estimated (b + 1) keys extra rows h.1,
)

-- What Iter goes through is the keys, each in its bucket.
pub record Kept (keys : List ℕ) (c : Compressed) : Type 0 where
  pub buckets : List (List ℕ)
  pub result : buckets_of c ≡ some buckets
  pub inside : InBuckets 0 buckets
  pub same : (bit : ℕ) → member_any bit buckets ≡ member bit keys

Holds-Kept :
    (n : ℕ) (done : List ℕ) (c : Compressed) → n * 256 ≤ u32_mod → Holds n done c → Kept done c
unfolding buckets_of
Holds-Kept n done c small h =
    let size : 0 + length c.working_space ≡ n = omega (arith, h.buckets) in
    let ranged : Ranged (0 * 256) ((0 + length c.working_space) * 256) (sort c.extra_keys) =
      rw size (sort-Ranged (n * 256) c.extra_keys h.below) in
    let i =
      iter-Iterates 0 c.working_space (sort c.extra_keys) (omega arith) ranged
        (Fits-sort c.estimated_bucket_size 0 _ c.extra_keys c.working_space h.rows) in
    record {
      buckets = i.buckets;
      result = i.result;
      inside = i.inside;
      same = λ bit.
          i.same bit
          ∙ ap (λ m. held bit 0 c.working_space || m) (member-sort bit c.extra_keys)
          ∙ h.same bit;
    }

pow_eight : (s : ℕ) → 2 ^ (s + 8) ≡ 2 ^ s * 256
pow_eight s = simp towards_suc (omega arith)

-- No bucket gets 256 keys or more: its size has one byte.
abbrev pub NoneFull : List ℕ → Type 0
NoneFull keys = (b : ℕ) → count_in b keys < 256

pub set_all-Kept :
    (key_bits num_keys : ℕ) (keys : List ℕ)
    → 8 ≤ key_bits
    → key_bits < 32
    → AllBelow (2 ^ key_bits) keys
    → NoneFull keys
    → Kept keys (set_all keys (reset key_bits num_keys))
set_all-Kept key_bits num_keys keys lo hi below small =
    let n = 2 ^ (key_bits - 8) in
    let whole : 2 ^ key_bits ≡ n * 256 = ap (λ m. 2 ^ m) (omega arith) ∙ pow_eight (key_bits - 8) in
    let c = set_all keys (reset key_bits num_keys) in
    let bits : key_bits ≤ 32 = omega arith in
    let top = pow-le-pow_right {n = 2} (omega arith) bits in
    let k = Holds-Kept n (onto keys []) c (omega (arith, top, whole)) (
      set_all-Holds n keys [] (reset key_bits num_keys) (rw (← whole) below)
        (λ b. omega (arith, small b)) (reset-Holds key_bits num_keys)) in
    record {
      buckets = k.buckets;
      result = k.result;
      inside = k.inside;
      same = λ bit. k.same bit ∙ member-onto bit keys [] ∙ ground arith;
    }
