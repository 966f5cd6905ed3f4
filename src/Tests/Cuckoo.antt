-- ===== src/Tests/Cuckoo.antt =====
-- The cuckoo filter at concrete inputs.
use deltafs.Prelude.{
  ℕ, zero, suc, ◌+◌, ◌*◌, ◌/◌, ◌%◌, ◌^◌, ◌<◌, ◌≡◌, ◌≢◌, refl, Bool, true, false, some, List, [],
  ◌∷◌, ◌++◌, Bytes, get_or, arith, All, ◌≤◌,
}
use deltafs.Plfsio.Cuckoo.Bits.{masked, cuckoo_alt, cuckoo_fingerprint}
use deltafs.Plfsio.Cuckoo.Power.{upper_power2, upper_power2_bounds}
use deltafs.Plfsio.Cuckoo.Table.{
  Doubles, Table, reset_table, buckets_for, add_to, add_moves, scan, write, read, fuse, resize,
  no_keys, cell,
}
use deltafs.Plfsio.Cuckoo.Kept.{IsTable, Holds}
use deltafs.Plfsio.Cuckoo.Moves.{add_to-Holds}
use deltafs.Plfsio.Cuckoo.Block.{
  CuckooOptions, Common, Block, strayed, out_of_fuel, new_block, reset, add_keys, add_key, add_more,
  add_hashed, fill, all_tables,
}
use deltafs.Plfsio.Cuckoo.Filter.{Layout, is_instance, finish, cuckoo_key_may_match, cuckoo_values}
use deltafs.Plfsio.Cuckoo.Bytes.{IsLayout}
use deltafs.Plfsio.Cuckoo.Values.{HasValue}
use deltafs.Plfsio.Cuckoo.Fresh.{IsRate, cell-no_keys}
use deltafs.Plfsio.Cuckoo.Added.{Entry, IsHash}
use deltafs.Plfsio.Cuckoo.Staged.{IsShort}
use deltafs.Plfsio.Cuckoo.More.{one_more, all_taken}
use deltafs.Plfsio.Cuckoo.Matches.{cuckoo_key_may_match-finish, cuckoo_values-finish}
use deltafs.Plfsio.Cuckoo.Overflow.{IsSome, all_tables_ends, all_tables_stray}

-- Stand-ins for what is not in the repository.
abbrev quarters : Doubles
quarters = record {
  Double = Bool;
  positive = λ b. b;
  ceil_buckets = λ b n. n / 4;
  high_rate = true;
}

abbrev byte_sum : Bytes → ℕ
byte_sum [] = 1
byte_sum (b ∷ bs) = b + byte_sum bs

abbrev spread_hash : Common
spread_hash = record {
  xxhash = λ key. (byte_sum key * 2 ^ 50 + byte_sum key) % 2 ^ 64;
  next_random = λ s. (s + 1, s + 1);
}

abbrev same_hash : Common
same_hash = record { xxhash = λ key. 2 ^ 50; next_random = λ s. (s + 1, s + 1) }

abbrev of_moves : ℕ → CuckooOptions quarters
of_moves n = record { cuckoo_max_moves = n; cuckoo_seed = 0; cuckoo_frac = false }

abbrev little_endian : Layout
little_endian = record {
  put_fixed32 = λ n. n % 256 ∷ n / 256 % 256 ∷ n / 65536 % 256 ∷ n / 16777216 % 256 ∷ [];
  decode_fixed32 =
      λ bs. get_or bs 0 0 + get_or bs 1 0 * 256 + get_or bs 2 0 * 65536 + get_or bs 3 0 * 16777216;
  bucket_size = λ k v. 4;
  put_bucket = λ k v b. b.x0 ∷ b.x1 ∷ b.x2 ∷ b.x3 ∷ [];
  get_bucket = λ k v bs. record {
    x0 = get_or bs 0 0;
    x1 = get_or bs 1 0;
    x2 = get_or bs 2 0;
    x3 = get_or bs 3 0;
  };
}

little_endian-IsLayout : IsLayout little_endian
little_endian-IsLayout = record {
  fixed32_size = λ n. refl;
  fixed32 = λ n rest h. omega arith;
  bucket_size = λ k v b. refl;
  bucket = λ k v b rest h. refl;
}

spread_hash-IsHash : IsHash spread_hash
spread_hash-IsHash key = omega arith

same_hash-IsHash : IsHash same_hash
same_hash-IsHash key = omega arith

quarters-IsRate : (b : Bool) → IsRate quarters b
quarters-IsRate b e n h = omega arith

abbrev key_of_byte : ℕ → Entry
key_of_byte b = (b ∷ [], b)

abbrev five_keys : List Entry
five_keys = key_of_byte 1 ∷ key_of_byte 2 ∷ key_of_byte 3 ∷ key_of_byte 4 ∷ key_of_byte 5 ∷ []

-- Six keys for a main table of four cells.
abbrev six_added : Block
six_added =
    add_keys quarters spread_hash (of_moves 2) 14 32 (five_keys ++ key_of_byte 6 ∷ [])
      (reset quarters spread_hash (of_moves 2) 1 (new_block quarters spread_hash (of_moves 2)))

known : is_instance 14 32 ≡ true
unfolding is_instance
known = refl

fits : one_more quarters spread_hash (of_moves 2) 14 32 six_added ≡ true
unfolding one_more all_taken fill add_hashed add_to add_moves scan write read fuse resize
    reset_table buckets_for upper_power2 cuckoo_fingerprint cuckoo_alt add_keys add_key add_more
    reset new_block
fits = refl

-- The sixth key is set aside.
six_aside : six_added.key_sizes ≡ 1 ∷ []
unfolding add_hashed add_to add_moves scan write read fuse reset_table buckets_for upper_power2
    cuckoo_fingerprint cuckoo_alt add_keys add_key add_more reset new_block
six_aside = refl

abbrev five_lengths : All IsShort five_keys
five_lengths = (omega arith, (omega arith, (omega arith, (omega arith, (omega arith, tt)))))

cuckoo_key_may_match-finish_example :
    (bytes : Bytes) × (finish little_endian 14 32 quarters spread_hash (of_moves 2) six_added
      ≡ some bytes)
    × (cuckoo_key_may_match little_endian spread_hash (6 ∷ []) bytes ≡ true)
cuckoo_key_may_match-finish_example =
    cuckoo_key_may_match-finish quarters spread_hash (of_moves 2) 14 32 little_endian
      little_endian-IsLayout spread_hash-IsHash (quarters-IsRate false) (quarters-IsRate true) known
      five_keys [] (6 ∷ []) 6 1 (new_block quarters spread_hash (of_moves 2)) five_lengths
      (omega arith) tt fits

cuckoo_values-finish_example :
    (bytes : Bytes) × (finish little_endian 14 32 quarters spread_hash (of_moves 2) six_added
      ≡ some bytes)
    × HasValue 14 32 6 (cuckoo_values little_endian spread_hash (6 ∷ []) bytes true []).1
cuckoo_values-finish_example =
    cuckoo_values-finish quarters spread_hash (of_moves 2) 14 32 little_endian
      little_endian-IsLayout spread_hash-IsHash (quarters-IsRate false) (quarters-IsRate true) known
      five_keys [] (6 ∷ []) 6 1 (new_block quarters spread_hash (of_moves 2)) five_lengths
      (omega arith) tt (omega arith) fits

-- Ten values of one key, for tables that take five.
abbrev values_from : ℕ → ℕ → List Entry
values_from zero n = []
values_from (suc left) n = (7 ∷ [], n) ∷ values_from left (suc n)

abbrev ten_values : List Entry
ten_values = values_from 10 0

abbrev ten_added : Block
ten_added =
    add_keys quarters same_hash (of_moves 1) 14 32 ten_values
      (reset quarters same_hash (of_moves 1) 1 (new_block quarters same_hash (of_moves 1)))

overflows : one_more quarters same_hash (of_moves 1) 14 32 ten_added ≡ false
unfolding one_more all_taken fill add_hashed add_to add_moves scan write read fuse resize
    reset_table buckets_for upper_power2 cuckoo_fingerprint cuckoo_alt add_keys add_key add_more
    reset new_block
overflows = refl

all_tables_ends_example : all_tables quarters same_hash (of_moves 1) 14 32 ten_added ≢ out_of_fuel
all_tables_ends_example =
    all_tables_ends quarters same_hash (of_moves 1) 14 32 ten_added (omega arith)

ten_lengths : All IsShort ten_values
ten_lengths = (
  omega arith,
  (
    omega arith,
    (
      omega arith,
      (
        omega arith,
        (
          omega arith,
          (omega arith, (omega arith, (omega arith, (omega arith, (omega arith, tt))))),
        ),
      ),
    ),
  ),
)

ten_nonempty : All IsSome ten_values
ten_nonempty = (
  omega arith,
  (
    omega arith,
    (
      omega arith,
      (
        omega arith,
        (
          omega arith,
          (omega arith, (omega arith, (omega arith, (omega arith, (omega arith, tt))))),
        ),
      ),
    ),
  ),
)

all_tables_stray_example : all_tables quarters same_hash (of_moves 1) 14 32 ten_added ≡ strayed
all_tables_stray_example =
    all_tables_stray quarters same_hash (of_moves 1) 14 32 same_hash-IsHash (omega arith)
      (omega arith) (quarters-IsRate false) ten_values 1 (new_block quarters same_hash (of_moves 1))
      (omega arith) ten_lengths ten_nonempty overflows

upper_power2_bounds_example : (m : ℕ) × (upper_power2 5 ≡ 2 ^ m) × (5 ≤ 2 ^ m) × (2 ^ m < 2 * 5)
upper_power2_bounds_example = upper_power2_bounds 5 (omega arith) (omega arith)

abbrev one_bucket : Table
one_bucket = record {
  space = no_keys ∷ [];
  num_buckets = 1;
  victim_index = 0;
  victim_data = 0;
  victim_fp = 0;
  full = false;
}

one_bucket-IsTable : IsTable 14 32 0 one_bucket
unfolding read
one_bucket-IsTable = record {
  buckets = refl;
  size = refl;
  small = omega arith;
  cells = λ i j. no_number i j;
}
  where
    no_number : (i j : ℕ) → cell (get_or (no_keys ∷ []) i no_keys) j < 2 ^ 46
    no_number zero j = rw (cell-no_keys j) (omega arith)
    no_number (suc i) j = rw (cell-no_keys j) (omega arith)

add_to-Holds_example :
    let r = (add_to 14 32 (λ s. (s + 1, s + 1)) 3 9 4 77 one_bucket 0).0 in
    IsTable 14 32 0 r
    × Holds 14 32 r (masked 9 (2 ^ 0)) 4 77
    × ((home f content : ℕ)
        → home < 2 ^ 0
        → 0 < f
        → Holds 14 32 one_bucket home f content
        → Holds 14 32 r home f content)
add_to-Holds_example =
    add_to-Holds 14 32 (λ s. (s + 1, s + 1)) (omega arith) 0 3 9 4 77 one_bucket 0
      one_bucket-IsTable refl (omega arith) (omega arith)
