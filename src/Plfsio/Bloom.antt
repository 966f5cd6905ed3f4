-- ===== src/Plfsio/Bloom.antt =====
-- BloomBlock and BloomKeyMayMatch of src/libdeltafs/plfsio/v1/filter.cc. The hash (xxhash64 of
-- pdlfs-common) is a parameter, and so is the number of probes, which the source computes in
-- floating point as bits_per_key * 0.69 + 1, at most 30.
pub mod Matches
use deltafs.Prelude.{
  ℕ, zero, suc, ◌+◌, ◌-◌, ◌*◌, ◌/◌, ◌%◌, ◌^◌, ◌<◌, ◌≤◌, ◌≡◌, refl, Bool, true, false, ◌&&◌, ◌||◌,
  not, ◌==◌, ltb, List, [], ◌∷◌, ◌++◌, Bytes, length, replicate, All, arith, if◌then◌else◌, ◌∙◌,
  sym, ap,
}
use deltafs.Plfsio.Bytewise.{
  IsByte, set_bit, test_bit, set_bit-IsByte, length-set_bit, test_bit-set_bit,
}

abbrev pub u32_mod : ℕ
u32_mod = 2 ^ 32

-- The bitmap, without the byte with the number of probes that `reset` appends to it.
pub record Bloom : Type 0 where
  pub k : ℕ
  pub bits_per_key : ℕ
  pub bits : ℕ
  pub space : Bytes

-- The bytes of a filter for `num_keys` keys: at least 64 bits.
unfoldable pub bloom_bytes : ℕ → ℕ → ℕ
bloom_bytes bits_per_key num_keys =
    let bits = num_keys * bits_per_key % u32_mod in
    ((if ltb bits 64 then 64 else bits) + 7) % u32_mod / 8

unfoldable pub reset : ℕ → Bloom → Bloom
reset num_keys f =
    let bytes = bloom_bytes f.bits_per_key num_keys in
    record f { bits = bytes * 8 % u32_mod; space = replicate bytes 0 }

-- The loop of AddKey: k probes from h1 on, h2 apart.
unfoldable pub probe_set : ℕ → ℕ → ℕ → ℕ → Bytes → Bytes
probe_set zero h1 h2 bits space = space
probe_set (suc j) h1 h2 bits space =
    probe_set j ((h1 + h2) % u32_mod) h2 bits (set_bit (h1 % bits) space)

-- The loop of BloomKeyMayMatch.
unfoldable pub probe_test : ℕ → ℕ → ℕ → ℕ → Bytes → Bool
probe_test zero h1 h2 bits array = true
probe_test (suc j) h1 h2 bits array =
    test_bit (h1 % bits) array && probe_test j ((h1 + h2) % u32_mod) h2 bits array

-- What Finish returns: the bitmap and the number of probes.
unfoldable pub finish : Bloom → Bytes
finish f = f.space ++ f.k ∷ []

abbrev pub last_of : Bytes → ℕ
last_of [] = 0
last_of (b ∷ []) = b
last_of (b ∷ c ∷ bs) = last_of (c ∷ bs)

module _ (bloom_hash : Bytes → ℕ) where
  unfoldable pub add_key : Bytes → Bloom → Bloom
  add_key key f =
      let hx = bloom_hash key in
      record f { space = probe_set f.k (hx % u32_mod) (hx / u32_mod % u32_mod) f.bits f.space }

  unfoldable pub add_keys : List Bytes → Bloom → Bloom
  add_keys [] f = f
  add_keys (key ∷ keys) f = add_keys keys (add_key key f)

  unfoldable pub may_match : Bytes → Bytes → Bool
  may_match key input =
      let hx = bloom_hash key in
      let bits = (length input - 1) * 8 % u32_mod in
      let k = last_of input in
      if ltb (length input) 2
      then true
      else if ltb 30 k
      then true
      else probe_test k (hx % u32_mod) (hx / u32_mod % u32_mod) bits input
