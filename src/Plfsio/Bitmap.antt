-- ===== src/Plfsio/Bitmap.antt =====
-- UncompressedFormat of src/libdeltafs/plfsio/v1/filter.cc: a bitmap as it is.
pub mod Exact
use deltafs.Prelude.{
  ℕ, ◌+◌, ◌*◌, ◌/◌, ◌^◌, Bool, false, ltb, List, [], ◌∷◌, Bytes, length, replicate, if◌then◌else◌,
}
use deltafs.Plfsio.Bytewise.{set_bit, test_bit}

-- Reset, for keys of `key_bits` bits.
unfoldable pub reset : ℕ → Bytes
reset key_bits = replicate ((2 ^ key_bits + 7) / 8) 0

-- Set, for each key.
unfoldable pub set_all : List ℕ → Bytes → Bytes
set_all [] space = space
set_all (i ∷ is) space = set_all is (set_bit i space)

-- Test.
unfoldable pub test : ℕ → Bytes → Bool
test i input = if ltb i (length input * 8) then test_bit i input else false
