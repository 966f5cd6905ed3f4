-- ===== src/Plfsio/Cuckoo/Block.antt =====
-- CuckooBlock of src/libdeltafs/plfsio/v1/cuckoo.cc: keys are added to a main table and, once that
-- is full, set aside for more tables, which Finish builds. The hash (xxhash64) and the random
-- numbers of pdlfs-common are parameters.
use deltafs.Prelude.{
  ℕ, zero, suc, ◌%◌, Bool, true, false, ◌==◌, ltb, List, [], ◌∷◌, ◌++◌, Bytes, length, take, drop,
  if◌then◌else◌,
}
use deltafs.Plfsio.Cuckoo.Bits.{cuckoo_fingerprint}
use deltafs.Plfsio.Cuckoo.Table.{Table, Doubles, u32_mod, reset_table, resize, add_to}

-- The options of a directory that a filter reads; a number of moves below 0 acts as 0.
pub record CuckooOptions (d : Doubles) : Type 0 where
  pub cuckoo_max_moves : ℕ
  pub cuckoo_seed : ℕ
  pub cuckoo_frac : d.Double

-- Functions of pdlfs-common.
pub record Common : Type 0 where
  pub xxhash : Bytes → ℕ
  pub next_random : ℕ → ℕ × ℕ

pub record Block : Type 0 where
  pub key_sizes : List ℕ
  pub values : List ℕ
  pub keys : Bytes
  pub rnd : ℕ
  pub finished : Bool
  pub rep : Table

-- What the loop over the keys that were set aside comes to: it reads out of the range of the keys,
-- or it stops with the keys that are left, the first of which fills the table.
pub data Filled : Type 0 where
  stray_read : Filled
  filled : List ℕ → List ℕ → Bytes → Table → ℕ → Filled

-- What building the tables comes to; the latest table is the first of the list.
pub data Built : Type 0 where
  built : List Table → Built
  strayed : Built
  out_of_fuel : Built

abbrev pub head_or_zero : List ℕ → ℕ
head_or_zero [] = 0
head_or_zero (x ∷ xs) = x

abbrev pub tail_of : List ℕ → List ℕ
tail_of [] = []
tail_of (x ∷ xs) = xs

module _ (d : Doubles) (c : Common) (o : CuckooOptions d) where
  -- The constructor.
  unfoldable pub new_block : Block
  new_block = record {
    key_sizes = [];
    values = [];
    keys = [];
    rnd = o.cuckoo_seed;
    finished = true;
    rep = reset_table d o.cuckoo_frac 0;
  }

  unfoldable pub reset : ℕ → Block → Block
  reset num_keys b = record {
    key_sizes = [];
    values = [];
    keys = [];
    rnd = b.rnd;
    finished = false;
    rep = reset_table d o.cuckoo_frac num_keys;
  }

  module _ (k v : ℕ) where
    -- AddTo, with the hash and the fingerprint of the key that its callers compute.
    unfoldable pub add_hashed : Bytes → ℕ → Table → ℕ → Table × ℕ
    add_hashed key value t rnd =
        let ha = c.xxhash key in
        add_to k v c.next_random o.cuckoo_max_moves ha (cuckoo_fingerprint ha k) value t rnd

    unfoldable pub add_more : Bytes → ℕ → Block → Block
    add_more key value b = record b {
      key_sizes = b.key_sizes ++ length key % u32_mod ∷ [];
      keys = b.keys ++ key;
      values = if v == 0 then b.values else b.values ++ value ∷ [];
    }

    unfoldable pub add_key : Bytes → ℕ → Block → Block
    add_key key value b =
        let (t, rnd') = add_hashed key value b.rep b.rnd in
        if b.rep.full then add_more key value b else record b { rep = t; rnd = rnd' }

    unfoldable pub add_keys : List (Bytes × ℕ) → Block → Block
    add_keys [] b = b
    add_keys ((key, value) ∷ rest) b = add_keys rest (add_key key value b)

    -- The inner loop of MaybeBuildMoreTables. A key that fills the table stays to be added, though
    -- its bytes are passed over.
    unfoldable pub fill : List ℕ → List ℕ → Bytes → Table → ℕ → Filled
    fill [] values start t rnd = filled [] values start t rnd
    fill (size ∷ sizes) values start t rnd =
        let value = if v == 0 then 0 else head_or_zero values in
        let (t', rnd') = add_hashed (take size start) value t rnd in
        elim (ltb (length start) size) [
          | true ↦ stray_read
          | false ↦ elim t'.full [
            | true ↦ filled (size ∷ sizes) values (drop size start) t' rnd'
            | false ↦ fill sizes (tail_of values) (drop size start) t' rnd'
          ]
        ]

    -- The outer loop, with the tables that are there already.
    unfoldable pub build_more : ℕ → List ℕ → List ℕ → Bytes → ℕ → List Table → Built
    build_more fuel [] values start rnd tables = built tables
    build_more zero (size ∷ sizes) values start rnd tables = out_of_fuel
    build_more (suc fuel) (size ∷ sizes) values start rnd tables =
        let t = resize d d.high_rate (length (size ∷ sizes)) (reset_table d d.high_rate 0) in
        elim (fill (size ∷ sizes) values start t rnd) [
          | stray_read ↦ strayed
          | filled sizes' values' start' t' rnd' ↦
              build_more fuel sizes' values' start' rnd' (t' ∷ tables)
        ]

    -- The tables of Finish, the main table last.
    unfoldable pub all_tables : Block → Built
    all_tables b = build_more (length b.key_sizes) b.key_sizes b.values b.keys b.rnd (b.rep ∷ [])
