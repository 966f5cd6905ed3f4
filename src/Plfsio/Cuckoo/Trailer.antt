-- ===== src/Plfsio/Cuckoo/Trailer.antt =====
-- The end of a cuckoo filter's bytes, and what CuckooValues of src/libdeltafs/plfsio/v1/cuckoo.cc
-- reads there.
use mathlib.Core.List.{append-nil}
use native.Mathlib.Nat.{mod-eq_of_lt}
use deltafs.Prelude.{
  ℕ, ◌+◌, ◌-◌, ◌%◌, ◌<◌, ◌≤◌, ◌≡◌, refl, Bool, true, false, ◌&&◌, ◌||◌, not, ◌==◌, ltb, List, [],
  ◌++◌, Bytes, length, length-append, drop, if◌then◌else◌, arith, ◌∙◌, sym, ap,
}
use deltafs.Plfsio.Cuckoo.Bits.{cuckoo_fingerprint}
use deltafs.Plfsio.Cuckoo.Table.{Table, u32_mod}
use deltafs.Plfsio.Cuckoo.Block.{Common}
use deltafs.Plfsio.Cuckoo.Filter.{
  Layout, is_instance, put_tables, test_tables, test_key, cuckoo_values,
}
use deltafs.Plfsio.Cuckoo.Bytes.{IsLayout, drop-append, drop-drop_append}

pub instance_bounds : (k v : ℕ) → is_instance k v ≡ true → (0 < k) × (k ≤ 32) × (v ≤ 32)
unfolding is_instance
instance_bounds k v h = ground arith

module _ (y : Layout) (l : IsLayout y) (k v : ℕ) (ts : List Table) where
  abbrev pub trailer : Bytes
  trailer = y.put_fixed32 (length ts % u32_mod) ++ (y.put_fixed32 v ++ y.put_fixed32 k)

  abbrev pub bytes : Bytes
  bytes = put_tables y k v ts ++ trailer

  pub size : length bytes ≡ length (put_tables y k v ts) + 12
  size = omega (
    arith,
    length-append (put_tables y k v ts) trailer,
    length-append (y.put_fixed32 (length ts % u32_mod)) (y.put_fixed32 v ++ y.put_fixed32 k),
    length-append (y.put_fixed32 v) (y.put_fixed32 k),
    l.fixed32_size (length ts % u32_mod),
    l.fixed32_size v,
    l.fixed32_size k,
  )

  module _ (place : ℕ) (rest : Bytes) (n : ℕ) where
    -- Reading where a number stands.
    read_at :
        (from_end : ℕ)
        → length bytes - from_end ≡ length (put_tables y k v ts) + place
        → drop place trailer ≡ y.put_fixed32 n ++ rest
        → n < u32_mod
        → y.decode_fixed32 (drop (length bytes - from_end) bytes) ≡ n
    read_at from_end e e' h =
        ap (λ j. y.decode_fixed32 (drop j bytes)) e
        ∙ (ap y.decode_fixed32 (
              drop-drop_append (length (put_tables y k v ts)) place (put_tables y k v ts) trailer
                refl
              ∙ e')
            ∙ l.fixed32 n rest h)

  num_tables_read :
      length ts < u32_mod → y.decode_fixed32 (drop (length bytes - 12) bytes) ≡ length ts
  num_tables_read h =
      read_at 0 (y.put_fixed32 v ++ y.put_fixed32 k) (length ts % u32_mod) 12 (omega (arith, size))
        refl (omega arith)
      ∙ mod-eq_of_lt h

  valbits_read : v ≤ 32 → y.decode_fixed32 (drop (length bytes - 8) bytes) ≡ v
  valbits_read h =
      read_at 4 (y.put_fixed32 k) v 8 (omega (arith, size))
        (drop-append 4 (y.put_fixed32 (length ts % u32_mod)) (y.put_fixed32 v ++ y.put_fixed32 k)
          (l.fixed32_size (length ts % u32_mod)))
        (omega arith)

  keybits_read : k ≤ 32 → y.decode_fixed32 (drop (length bytes - 4) bytes) ≡ k
  keybits_read h =
      read_at 8 [] k 4 (omega (arith, size))
        (drop-drop_append 4 4 (y.put_fixed32 (length ts % u32_mod))
            (y.put_fixed32 v ++ y.put_fixed32 k) (l.fixed32_size (length ts % u32_mod))
          ∙ (drop-append 4 (y.put_fixed32 v) (y.put_fixed32 k) (l.fixed32_size v)
              ∙ sym (append-nil (y.put_fixed32 k))))
        (omega arith)

  -- What CuckooValues does with the bytes of a filter.
  module _ (c : Common) (key : Bytes) (wanted : Bool) (values : List ℕ) where
    abbrev pub all : Bool
    all = not (v == 0) && wanted

    test_key_search :
        length ts < u32_mod
        → 0 < length ts
        → test_key y k v c key bytes all values
          ≡ test_tables y k v
              (length ts)
              (length bytes)
              12
              (c.xxhash key)
              (cuckoo_fingerprint (c.xxhash key) k)
              bytes
              all
              values
    unfolding test_key
    test_key_search few any =
        let search : ℕ → Bool × List ℕ = λ n.
          test_tables y k v n (length bytes) 12 (c.xxhash key) (cuckoo_fingerprint (c.xxhash key) k)
            bytes all values in
        let body : ℕ → Bool → Bool × List ℕ =
          λ n ends. elim ends [ true ↦ (true, values) | false ↦ search n ] in
        let long = size in
        let passed : (ltb (length bytes) 12 || (length ts == 0)) ≡ false = ground arith in
        ap (λ n. body n (ltb (length bytes) 12 || (n == 0))) (num_tables_read few)
        ∙ ap (body (length ts)) passed

    pub cuckoo_values_search :
        is_instance k v ≡ true
        → length ts < u32_mod
        → 0 < length ts
        → cuckoo_values y c key bytes wanted values
          ≡ test_tables y k v
              (length ts)
              (length bytes)
              12
              (c.xxhash key)
              (cuckoo_fingerprint (c.xxhash key) k)
              bytes
              all
              values
    unfolding cuckoo_values
    cuckoo_values_search known few any =
        let (positive, narrow, short) = instance_bounds k v known in
        let body : ℕ → ℕ → Bool × List ℕ = λ valbits keybits.
          if ltb (length bytes) 8 || not (is_instance keybits valbits)
          then (true, values)
          else test_key y keybits valbits c key bytes (not (valbits == 0) && wanted) values in
        let long = size in
        let enough : (ltb (length bytes) 8 || not (is_instance k v)) ≡ false = ground arith in
        ap (λ w. body w (y.decode_fixed32 (drop (length bytes - 4) bytes))) (valbits_read short)
        ∙ (ap (body v) (keybits_read narrow)
            ∙ (ap (λ b. if b then (true, values) else test_key y k v c key bytes all values) enough
                ∙ test_key_search few any))
