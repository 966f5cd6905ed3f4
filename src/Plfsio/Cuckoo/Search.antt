-- ===== src/Plfsio/Cuckoo/Search.antt =====
-- Searching a table of a cuckoo filter in its bytes finds what the table has, as Fetch of
-- src/libdeltafs/plfsio/v1/cuckoo.cc does.
use mathlib.Core.List.{append-nil}
use native.Mathlib.Nat.{dvd-mul_right, mod-mod_of_dvd, pow-le-pow_right}
use deltafs.Prelude.{
  ℕ, ◌+◌, ◌-◌, ◌*◌, ◌%◌, ◌^◌, ◌<◌, ◌≤◌, ◌≡◌, refl, Bool, true, false, ◌&&◌, ◌||◌, ◌==◌, List, [],
  Bytes, length, take, drop, get_or, arith, ◌⊎◌, inl, inr, ◌∙◌, sym, ap,
}
use deltafs.Plfsio.Cuckoo.Bits.{masked, masked_lt, other_bucket}
use deltafs.Plfsio.Cuckoo.Power.{pow_add}
use deltafs.Plfsio.Cuckoo.Table.{Table, u32_mod, no_keys, cell, read, key_of, value_of}
use deltafs.Plfsio.Cuckoo.Kept.{IsTable, IsHome, Stored, IsVictim, Holds}
use deltafs.Plfsio.Cuckoo.Filter.{Layout, put_space, put_header, put_table, bucket_at, fetch}
use deltafs.Plfsio.Cuckoo.Bytes.{
  IsLayout, bucket_at-put_space, numbers, numbers-front, numbers-second, numbers-third,
  numbers-last,
}
use deltafs.Plfsio.Cuckoo.Values.{
  HasValue, HasValue-append_last, any_key_at, keeps_if, gather_keeps, gather_at,
}

or_right : (a b : Bool) → b ≡ true → (a || b) ≡ true
or_right true b h = refl
or_right false b h = h

keys_only : {A B C D : Type 0} → (A × B) ⊎ (C × D) → A ⊎ C
keys_only (inl (a, b)) = inl a
keys_only (inr (c, d)) = inr c

hit_true :
    (a f i i1 i2 : ℕ) → a ≡ f → (i ≡ i1) ⊎ (i ≡ i2) → ((a == f) && ((i == i1) || (i == i2))) ≡ true
hit_true a f i i1 i2 e h = ground arith

module _ (y : Layout) (l : IsLayout y) (k v : ℕ) (narrow : k ≤ 32) (short : v ≤ 32) where
  module _ (t : Table) (m : ℕ) (w : IsTable k v m t) where
    bucket_read :
        (i : ℕ)
        → i < 2 ^ m
        → let input = put_table y k v t in
          bucket_at y k v (take (length input - 16) input) i ≡ get_or t.space i no_keys
    unfolding put_table put_header numbers
    bucket_read i h =
        let front = put_space y k v t.space in
        let taken =
          numbers-front y l k v front (t.num_buckets % u32_mod) (t.victim_index % u32_mod)
            (t.victim_data % u32_mod) (t.victim_fp % u32_mod) in
        ap (λ bs. bucket_at y k v bs i) (taken ∙ sym (append-nil front))
        ∙ bucket_at-put_space y l k v t.space i [] (omega (arith, w.size))
            (λ j. unfold read in w.cells i j)

    module _ (ha f value : ℕ) (hf : f < 2 ^ k)
        (holds : Holds k v t (masked ha (2 ^ m)) f value) where
      in_cells :
          (s : Stored k v t (masked ha (2 ^ m)) f value)
          → let i1 = masked ha t.num_buckets in
            let b1 = get_or t.space i1 no_keys in
            let b2 = get_or t.space (other_bucket t.num_buckets i1 f) no_keys in
            ((key_of k v (cell b1 s.slot) ≡ f) × (value_of k v (cell b1 s.slot) ≡ value % 2 ^ v))
            ⊎ ((key_of k v (cell b2 s.slot) ≡ f) × (value_of k v (cell b2 s.slot) ≡ value % 2 ^ v))
      unfolding read
      in_cells s = elim s.at_home [
        | inl e ↦
            let same : masked ha t.num_buckets ≡ s.bucket = rw (w.buckets, e) in
            inl (rw same s.key, rw same s.content)
        | inr e ↦
            let same : other_bucket t.num_buckets (masked ha t.num_buckets) f ≡ s.bucket =
              ap (λ n. other_bucket t.num_buckets (masked ha n) f) w.buckets ∙ sym e in
            inr (rw same s.key, rw same s.content)
      ]

      home_below : (b : ℕ) → IsHome k v t.num_buckets b (masked ha (2 ^ m)) f → b < 2 ^ m
      home_below b (inl e) = rw e (masked_lt ha m)
      home_below b (inr e) = rw (e, w.buckets) (masked_lt _ m)

      below_32 : (n : ℕ) → n < 32 → n ≤ 32
      below_32 n h = omega arith

      full_width : (n : ℕ) → n ≤ 32 → 32 ≡ n + (32 - n)
      full_width n h = omega arith

      low_bits : (x : ℕ) → x % u32_mod % 2 ^ v ≡ x % 2 ^ v
      low_bits x =
          let split : u32_mod ≡ 2 ^ v * 2 ^ (32 - v) =
            ap (λ n. 2 ^ n) (full_width v short) ∙ pow_add v (32 - v) in
          ap (λ b. x % b % 2 ^ v) split
          ∙ mod-mod_of_dvd (2 ^ v) x (dvd-mul_right (2 ^ v) (2 ^ (32 - v)))

      -- The numbers of a victim, as they are read back.
      victim_read :
          (s : IsVictim k v t (masked ha (2 ^ m)) f value)
          → let input = put_table y k v t in
            let i1 = masked ha t.num_buckets in
            let i = y.decode_fixed32 (drop (length input - 12) input) in
            (y.decode_fixed32 (drop (length input - 4) input) ≡ f)
            × ((i ≡ i1) ⊎ (i ≡ other_bucket t.num_buckets i1 f))
            × (y.decode_fixed32 (drop (length input - 8) input) % 2 ^ v ≡ value % 2 ^ v)
      unfolding put_table put_header numbers
      victim_read s =
          let wide = pow-le-pow_right {n = 2} (omega arith) narrow in
          let small = pow-le-pow_right {n = 2} (omega arith) (below_32 m w.small) in
          let fp : t.victim_fp % u32_mod ≡ f = omega (arith, s.key) in
          let index : t.victim_index % u32_mod ≡ t.victim_index =
            omega (arith, home_below t.victim_index s.at_home) in
          let front = put_space y k v t.space in
          let n = t.num_buckets % u32_mod in
          let i = t.victim_index % u32_mod in
          let x = t.victim_data % u32_mod in
          let g = t.victim_fp % u32_mod in
          let second = numbers-second y l k v front n i x g (omega arith) ∙ index in
          (
            numbers-last y l k v front n i x g (omega arith) ∙ fp,
            elim s.at_home [
              | inl e ↦ inl (second ∙ rw w.buckets e)
              | inr e ↦ inr (
                  second
                  ∙ (e ∙ ap (λ n. other_bucket t.num_buckets (masked ha n) f) (sym w.buckets)))
            ],
            ap (λ z. z % 2 ^ v) (numbers-third y l k v front n i x g (omega arith))
                ∙ (low_bits t.victim_data ∙ s.content),
          )

      -- The fingerprint is found, and with it the low bits of the value.
      pub fetch-Holds :
          (values : List ℕ)
          → let input = put_table y k v t in
            ((fetch y k v ha f t.num_buckets input false values).0 ≡ true)
            × HasValue k v value (fetch y k v ha f t.num_buckets input true values).1
      unfolding fetch
      fetch-Holds values =
          let input = put_table y k v t in
          let i1 = masked ha t.num_buckets in
          let i2 = other_bucket t.num_buckets i1 f in
          let first : i1 < 2 ^ m = rw w.buckets (masked_lt ha m) in
          let second : i2 < 2 ^ m = rw w.buckets (masked_lt _ m) in
          let b1 = get_or t.space i1 no_keys in
          let b2 = get_or t.space i2 no_keys in
          rw (bucket_read i1 first, bucket_read i2 second)
            (elim holds [
              | inl s ↦ (
                or_right _ _ (
                    any_key_at k v f b1 b2 4 0 s.slot (omega arith) (omega (arith, s.in_bucket))
                      (keys_only (in_cells s))),
                gather_at k v value f b1 b2 4 0 s.slot _ (omega arith) (omega (arith, s.in_bucket))
                    (in_cells s),
              )
              | inr s ↦
                  let (key, at_home, content) = victim_read s in
                  rw (hit_true _ f _ i1 i2 key at_home) (
                    refl,
                    gather_keeps k v value f b1 b2 4 0 _
                        (HasValue-append_last k v value values _ content),
                  )
            ])

  -- Searching a table keeps the values that were found before.
  pub fetch_keeps :
      (ha f n value : ℕ) (input : Bytes) (values : List ℕ)
      → HasValue k v value values
      → HasValue k v value (fetch y k v ha f n input true values).1
  unfolding fetch
  fetch_keeps ha f n value input values h =
      gather_keeps k v value f _ _ 4 0 _ (keeps_if k v value _ _ values h)
