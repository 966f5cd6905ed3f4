-- ===== src/Plfsio/Cuckoo/Filter.antt =====
-- The bytes of a cuckoo filter, of CuckooBlock::Finish, and the search in them of CuckooReader,
-- CuckooKeyTester, CuckooValues and CuckooKeyMayMatch of src/libdeltafs/plfsio/v1/cuckoo.cc. A
-- filter is its tables, each the buckets and four numbers, and three numbers at the end. How four
-- cells stand in the bytes of a packed struct is the compiler's, a parameter, and so are the fixed
-- codings of pdlfs-common.
use deltafs.Prelude.{
  ℕ, zero, suc, ◌+◌, ◌-◌, ◌*◌, ◌%◌, Bool, true, false, ◌&&◌, ◌||◌, not, ◌==◌, ltb, List, [], ◌∷◌,
  ◌++◌, Bytes, length, is_empty, take, drop, Option, none, some, if◌then◌else◌,
}
use deltafs.Plfsio.Cuckoo.Bits.{masked, other_bucket, cuckoo_fingerprint}
use deltafs.Plfsio.Cuckoo.Table.{Bucket, Table, Doubles, u32_mod, cell, key_of, value_of, any_key}
use deltafs.Plfsio.Cuckoo.Block.{
  CuckooOptions, Common, Block, built, strayed, out_of_fuel, all_tables,
}

-- The struct CuckooBucket<k, v> in memory, and PutFixed32 and DecodeFixed32.
pub record Layout : Type 0 where
  pub put_fixed32 : ℕ → Bytes
  pub decode_fixed32 : Bytes → ℕ
  pub bucket_size : ℕ → ℕ → ℕ
  pub put_bucket : ℕ → ℕ → Bucket → Bytes
  pub get_bucket : ℕ → ℕ → Bytes → Bucket

-- The classes that cuckoo.cc instantiates, which are those that CuckooValues knows.
abbrev one_of : ℕ → List ℕ → Bool
one_of n [] = false
one_of n (m ∷ ms) = (n == m) || one_of n ms

unfoldable pub is_instance : ℕ → ℕ → Bool
is_instance keybits valbits =
    if (valbits == 32) || (valbits == 0)
    then one_of keybits (28 ∷ 26 ∷ 24 ∷ 22 ∷ 20 ∷ 18 ∷ 16 ∷ 14 ∷ [])
    else if (keybits == 8) || (keybits == 4)
    then one_of valbits (24 ∷ 22 ∷ 20 ∷ 18 ∷ 16 ∷ 14 ∷ 12 ∷ 10 ∷ [])
    else false

module _ (k v : ℕ) where
  -- The values of a fingerprint in `left` cells of two buckets from `j` on, in the order of the
  -- source's loop.
  unfoldable pub gather_values : ℕ → Bucket → Bucket → ℕ → ℕ → List ℕ → List ℕ
  gather_values fp b1 b2 zero j values = values
  gather_values fp b1 b2 (suc left) j values =
      let x1 = cell b1 j in
      let x2 = cell b2 j in
      let first = if key_of k v x1 == fp then values ++ value_of k v x1 ∷ [] else values in
      gather_values fp b1 b2 left (suc j)
        (if key_of k v x2 == fp then first ++ value_of k v x2 ∷ [] else first)

module _ (y : Layout) where
  module _ (k v : ℕ) where
    unfoldable pub put_space : List Bucket → Bytes
    put_space [] = []
    put_space (b ∷ bs) = y.put_bucket k v b ++ put_space bs

    -- The four numbers behind the buckets of a table, as uint32_t.
    unfoldable pub put_header : Table → Bytes
    put_header t =
        y.put_fixed32 (t.num_buckets % u32_mod)
        ++ (y.put_fixed32 (t.victim_index % u32_mod)
            ++ (y.put_fixed32 (t.victim_data % u32_mod) ++ y.put_fixed32 (t.victim_fp % u32_mod)))

    unfoldable pub put_table : Table → Bytes
    put_table t = put_space t.space ++ put_header t

    -- The latest table first.
    unfoldable pub put_tables : List Table → Bytes
    put_tables [] = []
    put_tables (t ∷ ts) = put_tables ts ++ put_table t

    unfoldable pub put_filter : List Table → Bytes
    put_filter ts =
        put_tables ts
        ++ (y.put_fixed32 (length ts % u32_mod) ++ (y.put_fixed32 v ++ y.put_fixed32 k))

    -- CuckooReader: bucket `i` of the bytes.
    abbrev pub bucket_at : Bytes → ℕ → Bucket
    bucket_at buckets i = y.get_bucket k v (drop (i * y.bucket_size k v) buckets)

    -- CuckooKeyTester::Fetch. With `all`, which is v != 0 && values, the values of the key are
    -- added to those that there are.
    unfoldable pub fetch : ℕ → ℕ → ℕ → Bytes → Bool → List ℕ → Bool × List ℕ
    fetch ha fp num_buckets input all values =
        let size = length input in
        let i1 = masked ha num_buckets in
        let i2 = other_bucket num_buckets i1 fp in
        let i = y.decode_fixed32 (drop (size - 12) input) in
        let hit = (y.decode_fixed32 (drop (size - 4) input) == fp) && ((i == i1) || (i == i2)) in
        let buckets = take (size - 16) input in
        let b1 = bucket_at buckets i1 in
        let b2 = bucket_at buckets i2 in
        let victim =
          if hit then values ++ y.decode_fixed32 (drop (size - 8) input) ∷ [] else values in
        let values' = gather_values k v fp b1 b2 4 0 victim in
        if all then (not (is_empty values'), values') else (hit || any_key k v fp b1 b2 4 0, values)

    -- The loop of CuckooKeyTester over the tables, from the last: `remaining` bytes up to the end
    -- of what is read already, of which the last `table_size` are to be removed.
    unfoldable pub test_tables : ℕ → ℕ → ℕ → ℕ → ℕ → Bytes → Bool → List ℕ → Bool × List ℕ
    test_tables zero remaining table_size ha fp input all values =
        (if all then not (is_empty values) else false, values)
    test_tables (suc num_tables) remaining table_size ha fp input all values =
        let rest = remaining - table_size in
        let num_buckets = y.decode_fixed32 (drop (rest - 16) input) in
        let size = num_buckets * y.bucket_size k v + 16 in
        let (found, values') =
          fetch ha fp num_buckets (take size (drop (rest - size) input)) all values in
        elim (ltb rest 16 || (num_buckets == 0) || ltb rest size) [
          | true ↦ (true, values)
          | false ↦ elim (found && not all) [
            | true ↦ (true, values')
            | false ↦ test_tables num_tables rest size ha fp input all values'
          ]
        ]

    unfoldable pub test_key : Common → Bytes → Bytes → Bool → List ℕ → Bool × List ℕ
    test_key c key input all values =
        let size = length input in
        let num_tables = y.decode_fixed32 (drop (size - 12) input) in
        let ha = c.xxhash key in
        elim (ltb size 12 || (num_tables == 0)) [
          | true ↦ (true, values)
          | false ↦ test_tables num_tables size 12 ha (cuckoo_fingerprint ha k) input all values
        ]

    -- Finish; no result if it reads out of range.
    unfoldable pub finish : (d : Doubles) → Common → CuckooOptions d → Block → Option Bytes
    finish d c o b = elim (all_tables d c o k v b) [
      | built ts ↦ some (put_filter ts)
      | strayed ↦ none
      | out_of_fuel ↦ none
    ]

  -- With `wanted`, the values of the key are asked for.
  unfoldable pub cuckoo_values : Common → Bytes → Bytes → Bool → List ℕ → Bool × List ℕ
  cuckoo_values c key input wanted values =
      let size = length input in
      let valbits = y.decode_fixed32 (drop (size - 8) input) in
      let keybits = y.decode_fixed32 (drop (size - 4) input) in
      if ltb size 8 || not (is_instance keybits valbits)
      then (true, values)
      else test_key keybits valbits c key input (not (valbits == 0) && wanted) values

  unfoldable pub cuckoo_key_may_match : Common → Bytes → Bytes → Bool
  cuckoo_key_may_match c key input = (cuckoo_values c key input false []).0
