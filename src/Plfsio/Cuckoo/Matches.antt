-- ===== src/Plfsio/Cuckoo/Matches.antt =====
-- A cuckoo filter of src/libdeltafs/plfsio/v1/cuckoo.cc has no false negatives, and gives the values
-- that were added with a key.
use mathlib.Core.Path.{subst}
use deltafs.Prelude.{
  ℕ, ◌<◌, ◌≤◌, ◌≡◌, ◌≢◌, refl, Bool, true, false, ◌&&◌, not, ◌==◌, List, [], ◌∷◌, ◌++◌, Bytes,
  length, All, some, arith, inl, inr, ◌∙◌, sym, ap,
}
use deltafs.Plfsio.Cuckoo.Bits.{cuckoo_fingerprint}
use deltafs.Plfsio.Cuckoo.Table.{Table, Doubles, u32_mod}
use deltafs.Plfsio.Cuckoo.Block.{CuckooOptions, Common, Block, built, all_tables, add_keys, reset}
use deltafs.Plfsio.Cuckoo.Filter.{
  Layout, is_instance, put_filter, test_tables, finish, cuckoo_values, cuckoo_key_may_match,
}
use deltafs.Plfsio.Cuckoo.Bytes.{IsLayout}
use deltafs.Plfsio.Cuckoo.Values.{HasValue}
use deltafs.Plfsio.Cuckoo.Loop.{and_false, SomeHas, test_tables-SomeHas, test_tables-HasValue}
use deltafs.Plfsio.Cuckoo.Fresh.{IsRate}
use deltafs.Plfsio.Cuckoo.Added.{Entry, IsHash, fingerprint_bounds}
use deltafs.Plfsio.Cuckoo.Staged.{IsShort, add_keys-IsMore, reset-IsBlock}
use deltafs.Plfsio.Cuckoo.More.{one_more}
use deltafs.Plfsio.Cuckoo.Finished.{SomeHolds, all_tables-IsBuilt}
use deltafs.Plfsio.Cuckoo.Trailer.{instance_bounds, trailer, bytes, size, cuckoo_values_search}

-- A filter of a class that the source instantiates, over a layout, a hash and rates as they are
-- documented.
module _ (d : Doubles) (c : Common) (o : CuckooOptions d) (k v : ℕ) (y : Layout) (l : IsLayout y)
    (hash : IsHash c) (rate : IsRate d o.cuckoo_frac) (high : IsRate d d.high_rate)
    (known : is_instance k v ≡ true) where
  record IsAnswered (key : Bytes) (value : ℕ) (b : Block) : Type 0 where
    tables : List Table
    is_built : all_tables d c o k v b ≡ built tables
    matches : cuckoo_key_may_match y c key (put_filter y k v tables) ≡ true
    values : v ≢ 0 → HasValue k v value (cuckoo_values y c key (put_filter y k v tables) true []).1

  SomeHolds-SomeHas :
      (positive : 0 < k) (narrow : k ≤ 32) (short : v ≤ 32) (key : Bytes) (value : ℕ)
      (ts : List Table)
      → let ha = c.xxhash key in
        SomeHolds d c o k v ts (key, value)
        → SomeHas y l k v narrow short ha
            (cuckoo_fingerprint ha k)
            value
            (fingerprint_bounds ha k (hash key) positive narrow).1
            ts
  SomeHolds-SomeHas positive narrow short key value [] h = h
  SomeHolds-SomeHas positive narrow short key value (t ∷ ts) (inl h) = inl h
  SomeHolds-SomeHas positive narrow short key value (t ∷ ts) (inr h) =
      inr (SomeHolds-SomeHas positive narrow short key value ts h)

  answered :
      (before after : List Entry) (key : Bytes) (value num_keys : ℕ) (b : Block)
      → All IsShort before
      → length key < u32_mod
      → All IsShort after
      → let b' = add_keys d c o k v (before ++ (key, value) ∷ after) (reset d c o num_keys b) in
        one_more d c o k v b' ≡ true → IsAnswered key value b'
  answered before after key value num_keys b p here q fits =
      let (positive, narrow, short) = instance_bounds k v known in
      let more =
        add_keys-IsMore d c o k v hash positive narrow before after (key, value) _ []
          (reset-IsBlock d c o k v hash positive narrow num_keys b rate) p here q in
      let r = all_tables-IsBuilt d c o k v hash positive narrow high _ more.aside more.block fits in
      let ha = c.xxhash key in
      let fp = cuckoo_fingerprint ha k in
      let below = (fingerprint_bounds ha k (hash key) positive narrow).1 in
      let ts = r.tables in
      let trail = trailer y l k v ts in
      let input = bytes y l k v ts in
      let long = size y l k v ts in
      let search =
        λ (wanted : Bool). cuckoo_values_search y l k v ts c key wanted [] known r.few r.some in
      let has =
        SomeHolds-SomeHas positive narrow short key value ts (r.has (key, value) more.added) in
      record {
        tables = r.tables;
        is_built = r.is_built;
        matches =
            unfold cuckoo_key_may_match put_filter in
            (ap (λ r. r.0) (search false)
              ∙ (ap (λ all. (test_tables y k v (length ts) (length input) 12 ha fp input all []).0)
                    (and_false (not (v == 0)))
                  ∙ test_tables-SomeHas y l k v narrow short ha fp value below ts trail 12
                      (length input) [] r.well_formed has long));
        values = λ used.
            let all : (not (v == 0) && true) ≡ true = ground arith in
            unfold put_filter in
            subst (λ s. HasValue k v value s.1)
              (sym (
                search true
                ∙ ap (λ all. test_tables y k v (length ts) (length input) 12 ha fp input all [])
                    all))
              (test_tables-HasValue y l k v narrow short ha fp value below ts trail 12
                (length input) [] r.well_formed (inl has) long);
      }

  finish_some :
      (b : Block) (ts : List Table)
      → all_tables d c o k v b ≡ built ts
      → finish y k v d c o b ≡ some (put_filter y k v ts)
  unfolding finish
  finish_some b ts e = rw (finish, e) refl

  -- Keys are added, with their values, to a block that was reset, and at most one more table is
  -- needed: `one_more`, which computes that the table built for the keys that were set aside takes
  -- them all. Then Finish returns bytes that every key that was added matches. The filter is of a
  -- class that the source instantiates, and no key is 2 ^ 32 bytes long; the options are any, so
  -- long as no number of keys asks for more than 2 ^ 31 buckets.
  pub cuckoo_key_may_match-finish :
      (before after : List Entry) (key : Bytes) (value num_keys : ℕ) (b : Block)
      → All IsShort before
      → length key < u32_mod
      → All IsShort after
      → let b' = add_keys d c o k v (before ++ (key, value) ∷ after) (reset d c o num_keys b) in
        one_more d c o k v b' ≡ true
        → (bytes : Bytes) × (finish y k v d c o b' ≡ some bytes)
          × (cuckoo_key_may_match y c key bytes ≡ true)
  cuckoo_key_may_match-finish before after key value num_keys b p here q fits =
      let r = answered before after key value num_keys b p here q fits in
      (put_filter y k v r.tables, finish_some _ r.tables r.is_built, r.matches)

  -- Under the same conditions, if the filter keeps values, the values that CuckooValues collects
  -- for the key have one with the low v bits of the value that was added, however many values the
  -- key has.
  pub cuckoo_values-finish :
      (before after : List Entry) (key : Bytes) (value num_keys : ℕ) (b : Block)
      → All IsShort before
      → length key < u32_mod
      → All IsShort after
      → v ≢ 0
      → let b' = add_keys d c o k v (before ++ (key, value) ∷ after) (reset d c o num_keys b) in
        one_more d c o k v b' ≡ true
        → (bytes : Bytes) × (finish y k v d c o b' ≡ some bytes)
          × HasValue k v value (cuckoo_values y c key bytes true []).1
  cuckoo_values-finish before after key value num_keys b p here q used fits =
      let r = answered before after key value num_keys b p here q fits in
      (put_filter y k v r.tables, finish_some _ r.tables r.is_built, r.values used)
