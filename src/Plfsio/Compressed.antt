-- ===== src/Plfsio/Compressed.antt =====
-- CompressedFormat of src/libdeltafs/plfsio/v1/filter.cc: the keys of a bitmap in buckets of 256, in
-- memory. Bucket `i` has the bytes from `bytes_per_bucket_ * i` on: one for its size, the others one
-- for each key. A row here is a bucket's bytes.
pub mod Ranges
pub mod Filled
pub mod Fetched
pub mod Kept
use deltafs.Prelude.{
  ℕ, zero, suc, ◌+◌, ◌-◌, ◌*◌, ◌/◌, ◌%◌, ◌^◌, ltb, leb, List, [], ◌∷◌, ◌++◌, Option, none, some,
  Bytes, replicate, if◌then◌else◌,
}

pub record Row : Type 0 where
  pub size : ℕ
  pub slots : Bytes

pub record Compressed : Type 0 where
  pub estimated_bucket_size : ℕ
  pub working_space : List Row
  pub extra_keys : List ℕ

-- Reset, after the constructor has set `num_buckets_` to `1u << (key_bits_ - 8)`.
unfoldable pub reset : ℕ → ℕ → Compressed
reset key_bits num_keys =
    let buckets = 2 ^ (key_bits - 8) in
    let size = (num_keys + buckets - 1) / buckets in
    record {
      estimated_bucket_size = size;
      working_space = replicate buckets (record { size = 0; slots = replicate size 0 });
      extra_keys = [];
    }

abbrev pub put_at : ℕ → ℕ → Bytes → Bytes
put_at n v [] = []
put_at zero v (s ∷ slots) = v ∷ slots
put_at (suc n) v (s ∷ slots) = s ∷ put_at n v slots

-- What Set does to the key's bucket, and what it pushes to `extra_keys_`. The size is one byte.
abbrev pub set_row : ℕ → ℕ → Row → Row × List ℕ
set_row estimated i r =
    if ltb r.size estimated
    then (record { size = (r.size + 1) % 256; slots = put_at r.size (i % 256) r.slots }, [])
    else (record { size = (r.size + 1) % 256; slots = r.slots }, i ∷ [])

-- The bucket at an index. An index past the last bucket, where the source writes out of bounds,
-- changes nothing here.
abbrev pub set_in : ℕ → ℕ → ℕ → List Row → List Row × List ℕ
set_in estimated i j [] = ([], [])
set_in estimated i zero (r ∷ rows) = let (r', extra) = set_row estimated i r in (r' ∷ rows, extra)
set_in estimated i (suc j) (r ∷ rows) =
    let (rows', extra) = set_in estimated i j rows in (r ∷ rows', extra)

-- Set.
unfoldable pub set : ℕ → Compressed → Compressed
set i c =
    let (rows, extra) = set_in c.estimated_bucket_size i (i / 256) c.working_space in
    record c { working_space = rows; extra_keys = c.extra_keys ++ extra }

unfoldable pub set_all : List ℕ → Compressed → Compressed
set_all [] c = c
set_all (i ∷ is) c = set_all is (set i c)

-- std::sort.
unfoldable pub insert_sorted : ℕ → List ℕ → List ℕ
insert_sorted k [] = k ∷ []
insert_sorted k (j ∷ js) = if leb k j then k ∷ j ∷ js else j ∷ insert_sorted k js

unfoldable pub sort : List ℕ → List ℕ
sort [] = []
sort (k ∷ ks) = insert_sorted k (sort ks)

abbrev pub with_key : ℕ → Option (List ℕ × List ℕ) → Option (List ℕ × List ℕ)
with_key k none = none
with_key k (some (keys, extra)) = some (k ∷ keys, extra)

-- Iter::Fetch: as many keys as the size says, from the bucket's bytes first and then from the cursor
-- in the extra keys. None is the assertion that the cursor is not at the end.
unfoldable pub fetch_keys : ℕ → ℕ → Bytes → List ℕ → Option (List ℕ × List ℕ)
fetch_keys bucket zero slots extra = some ([], extra)
fetch_keys bucket (suc n) (s ∷ slots) extra =
    with_key (s + bucket * 256) (fetch_keys bucket n slots extra)
fetch_keys bucket (suc n) [] [] = none
fetch_keys bucket (suc n) [] (k ∷ extra) = with_key k (fetch_keys bucket n [] extra)

abbrev pub with_bucket : List ℕ → Option (List (List ℕ)) → Option (List (List ℕ))
with_bucket keys none = none
with_bucket keys (some buckets) = some (keys ∷ buckets)

-- Iter over the buckets from one on, with the cursor in the extra keys.
unfoldable pub iter : ℕ → List Row → List ℕ → Option (List (List ℕ))
iter bucket [] extra = some []
iter bucket (r ∷ rows) extra = elim (fetch_keys bucket r.size r.slots extra) [
  | none ↦ none
  | some (keys, rest) ↦ with_bucket keys (iter (bucket + 1) rows rest)
]

-- The buckets that Finish of the subclasses goes through, after CompressedFormat::Finish.
unfoldable pub buckets_of : Compressed → Option (List (List ℕ))
buckets_of c = iter 0 c.working_space (sort c.extra_keys)
