-- ===== src/Plfsio/Cuckoo/Table.antt =====
-- CuckooTable and CuckooBucket of src/libdeltafs/plfsio/v1/cuckoo.cc, for keys of k bits and values
-- of v bits, and CuckooBlock::AddTo and CuckooBlock::Exists. Memory is a list of buckets here; the
-- bytes that a bucket takes are those of Plfsio.Cuckoo.Filter. The source's separate branch for
-- v = 0 in `Write`, `pair` and `key` is the other one at v = 0, where a shift by v changes nothing
-- and the value is 0.
use deltafs.Prelude.{
  ℕ, zero, suc, ◌+◌, ◌*◌, ◌/◌, ◌%◌, ◌^◌, Bool, true, false, ◌&&◌, ◌||◌, ◌==◌, List, replicate,
  get_or, set, if◌then◌else◌,
}
use deltafs.Plfsio.Cuckoo.Bits.{masked, other_bucket}
use deltafs.Plfsio.Cuckoo.Power.{upper_power2}

abbrev pub u32_mod : ℕ
u32_mod = 2 ^ 32

-- Four cells of k + v bits.
pub record Bucket : Type 0 where
  pub x0 : ℕ
  pub x1 : ℕ
  pub x2 : ℕ
  pub x3 : ℕ

abbrev pub no_keys : Bucket
no_keys = record { x0 = 0; x1 = 0; x2 = 0; x3 = 0 }

abbrev pub cell : Bucket → ℕ → ℕ
cell b zero = b.x0
cell b (suc zero) = b.x1
cell b (suc (suc zero)) = b.x2
cell b (suc (suc (suc zero))) = b.x3
cell b (suc (suc (suc (suc j)))) = 0

abbrev pub set_cell : Bucket → ℕ → ℕ → Bucket
set_cell b zero x = record b { x0 = x }
set_cell b (suc zero) x = record b { x1 = x }
set_cell b (suc (suc zero)) x = record b { x2 = x }
set_cell b (suc (suc (suc zero))) x = record b { x3 = x }
set_cell b (suc (suc (suc (suc j)))) x = b

pub record Table : Type 0 where
  pub space : List Bucket
  pub num_buckets : ℕ
  pub victim_index : ℕ
  pub victim_data : ℕ
  pub victim_fp : ℕ
  pub full : Bool

-- The arithmetic on `double`: whether a rate is above 0, and the number of buckets
-- ceil(1.0 / frac * n / 4).
pub record Doubles : Type 1 where
  pub Double : Type 0
  pub positive : Double → Bool
  pub ceil_buckets : Double → ℕ → ℕ
  -- The number 0.95.
  pub high_rate : Double

module _ (d : Doubles) where
  unfoldable pub buckets_for : d.Double → ℕ → ℕ
  buckets_for frac num_keys =
      let n = (num_keys + 3) % u32_mod in
      let buckets = if d.positive frac then d.ceil_buckets frac n else n / 4 in
      if buckets == 0 then 1 else upper_power2 buckets

  unfoldable pub resize : d.Double → ℕ → Table → Table
  resize frac num_keys t = record t {
    num_buckets = buckets_for frac num_keys;
    space = replicate (buckets_for frac num_keys) no_keys;
  }

  unfoldable pub reset_table : d.Double → ℕ → Table
  reset_table frac num_keys = record {
    space = replicate (buckets_for frac num_keys) no_keys;
    num_buckets = buckets_for frac num_keys;
    victim_index = 0;
    victim_data = 0;
    victim_fp = 0;
    full = false;
  }

unfoldable pub read : Table → ℕ → ℕ → ℕ
read t i j = cell (get_or t.space i no_keys) j

-- What the loop over the cells of a bucket finds.
pub data Scan : Type 0 where
  empty_at : ℕ → Scan
  present : Scan
  no_room : Scan

module _ (k v : ℕ) where
  -- A key and a value in the bits of a cell.
  unfoldable pub fuse : ℕ → ℕ → ℕ
  fuse fp value = (fp * 2 ^ v + value % 2 ^ v) % 2 ^ (k + v)

  abbrev pub key_of : ℕ → ℕ
  key_of x = x / 2 ^ v % u32_mod

  abbrev pub value_of : ℕ → ℕ
  value_of x = x % 2 ^ v

  unfoldable pub write : ℕ → ℕ → ℕ → ℕ → Table → Table
  write i j fp value t = record t {
    space = set t.space i (set_cell (get_or t.space i no_keys) j (fuse fp value));
  }

  -- `left` cells from `j` on.
  unfoldable pub scan : ℕ → ℕ → Bucket → ℕ → ℕ → Scan
  scan fp value b zero j = no_room
  scan fp value b (suc left) j =
      let rest = scan fp value b left (suc j) in
      if key_of (cell b j) == 0
      then empty_at j
      else if (key_of (cell b j) == fp) && (value_of (cell b j) == value % 2 ^ v)
      then present
      else rest

  -- The generator of random numbers of pdlfs-common: a number and the next state.
  module _ (next : ℕ → ℕ × ℕ) where
    -- The loop of AddTo with `left` moves to go, of which the first kicks nothing out.
    unfoldable pub add_moves : ℕ → Bool → ℕ → ℕ → ℕ → Table → ℕ → Table × ℕ
    add_moves zero first i fp value t rnd = (
      record t { full = true; victim_index = i % u32_mod; victim_data = value; victim_fp = fp },
      rnd,
    )
    add_moves (suc left) first i fp value t rnd =
        elim (scan fp value (get_or t.space i no_keys) 4 0) [
          | empty_at j ↦ (write i j fp value t, rnd)
          | present ↦ (t, rnd)
          | no_room ↦ elim first [
            | true ↦ add_moves left false (other_bucket t.num_buckets i fp) fp value t rnd
            | false ↦
                let (number, rnd') = next rnd in
                let victim = number % 4 in
                let kicked = read t i victim in
                add_moves left false (other_bucket t.num_buckets i (key_of kicked)) (key_of kicked)
                  (value_of kicked) (write i victim fp value t) rnd'
          ]
        ]

    unfoldable pub add_to : ℕ → ℕ → ℕ → ℕ → Table → ℕ → Table × ℕ
    add_to max_moves ha fp value t rnd =
        add_moves max_moves true (masked ha t.num_buckets) fp value t rnd

  unfoldable pub any_key : ℕ → Bucket → Bucket → ℕ → ℕ → Bool
  any_key fp b1 b2 zero j = false
  any_key fp b1 b2 (suc left) j =
      (key_of (cell b1 j) == fp) || (key_of (cell b2 j) == fp) || any_key fp b1 b2 left (suc j)

  unfoldable pub exists_in : ℕ → ℕ → Table → Bool
  exists_in ha fp t =
      let i1 = masked ha t.num_buckets in
      let i2 = other_bucket t.num_buckets i1 fp in
      (t.full && (t.victim_fp == fp) && ((t.victim_index == i1) || (t.victim_index == i2)))
      || any_key fp (get_or t.space i1 no_keys) (get_or t.space i2 no_keys) 4 0
