-- ===== src/Plfsio/Bloom/Matches.antt =====
-- A bloom filter has no false negatives.
use deltafs.Prelude.{
  ℕ, zero, suc, ◌+◌, ◌-◌, ◌*◌, ◌/◌, ◌%◌, ◌<◌, ◌≤◌, ◌≡◌, refl, true, List, [], ◌∷◌, ◌++◌, Bytes,
  length, length-append, replicate, get_or, All, arith, ap,
}
use deltafs.Plfsio.Bytewise.{
  IsByte, set_bit, test_bit, set_bit-IsByte, length-set_bit, test_bit-set_bit,
}
use deltafs.Plfsio.Bloom.{
  Bloom, bloom_bytes, reset, probe_set, probe_test, finish, last_of, add_key, add_keys, may_match,
  u32_mod,
}

pub record IsBitmap (bits : ℕ) (space : Bytes) : Type 0 where
  pub bytes : All IsByte space
  pub size : bits ≡ length space * 8
  pub some_bits : 0 < bits

index_in : (h bits : ℕ) (space : Bytes) → IsBitmap bits space → h % bits / 8 < length space
index_in h bits space m = omega arith

set_bit-IsBitmap :
    (i bits : ℕ) (space : Bytes) → IsBitmap bits space → IsBitmap bits (set_bit i space)
set_bit-IsBitmap i bits space m = record {
  bytes = set_bit-IsByte i space m.bytes;
  size = omega (arith, length-set_bit i space);
  some_bits = m.some_bits;
}

probe_set-IsBitmap :
    (k h1 h2 bits : ℕ) (space : Bytes)
    → IsBitmap bits space
    → IsBitmap bits (probe_set k h1 h2 bits space)
unfolding probe_set
probe_set-IsBitmap zero h1 h2 bits space m = m
probe_set-IsBitmap (suc k) h1 h2 bits space m =
    probe_set-IsBitmap k ((h1 + h2) % u32_mod) h2 bits (set_bit (h1 % bits) space)
      (set_bit-IsBitmap (h1 % bits) bits space m)

set_bit_keeps :
    (i h bits : ℕ) (space : Bytes)
    → IsBitmap bits space
    → test_bit i space ≡ true
    → test_bit i (set_bit (h % bits) space) ≡ true
set_bit_keeps i h bits space m t =
    ground (arith, test_bit-set_bit i (h % bits) space m.bytes (index_in h bits space m))

probe_set_keeps :
    (k i h1 h2 bits : ℕ) (space : Bytes)
    → IsBitmap bits space
    → test_bit i space ≡ true
    → test_bit i (probe_set k h1 h2 bits space) ≡ true
unfolding probe_set
probe_set_keeps zero i h1 h2 bits space m t = t
probe_set_keeps (suc k) i h1 h2 bits space m t =
    probe_set_keeps k i ((h1 + h2) % u32_mod) h2 bits (set_bit (h1 % bits) space)
      (set_bit-IsBitmap (h1 % bits) bits space m) (set_bit_keeps i h1 bits space m t)

-- Probing keeps what other probes have set.
probe_test_keeps :
    (n g1 g2 k h1 h2 bits : ℕ) (space : Bytes)
    → IsBitmap bits space
    → probe_test n g1 g2 bits space ≡ true
    → probe_test n g1 g2 bits (probe_set k h1 h2 bits space) ≡ true
unfolding probe_test
probe_test_keeps zero g1 g2 k h1 h2 bits space m t = refl
probe_test_keeps (suc n) g1 g2 k h1 h2 bits space m t = ground (
  arith,
  probe_set_keeps k (g1 % bits) h1 h2 bits space m,
  probe_test_keeps n ((g1 + g2) % u32_mod) g2 k h1 h2 bits space m,
)

probe_test-probe_set :
    (k h1 h2 bits : ℕ) (space : Bytes)
    → IsBitmap bits space
    → probe_test k h1 h2 bits (probe_set k h1 h2 bits space) ≡ true
unfolding probe_test probe_set
probe_test-probe_set zero h1 h2 bits space m = refl
probe_test-probe_set (suc k) h1 h2 bits space m =
    let m' = set_bit-IsBitmap (h1 % bits) bits space m in
    ground (
      arith,
      test_bit-set_bit (h1 % bits) (h1 % bits) space m.bytes (index_in h1 bits space m),
      probe_set_keeps k (h1 % bits) ((h1 + h2) % u32_mod) h2 bits (set_bit (h1 % bits) space) m',
      probe_test-probe_set k ((h1 + h2) % u32_mod) h2 bits (set_bit (h1 % bits) space) m',
    )

get_or-append : (bs cs : Bytes) (n : ℕ) → n < length bs → get_or (bs ++ cs) n 0 ≡ get_or bs n 0
get_or-append [] cs n h = absurd (omega arith)
get_or-append (b ∷ bs) cs zero h = refl
get_or-append (b ∷ bs) cs (suc n) h = get_or-append bs cs n (omega arith)

-- The byte behind the bitmap does not matter to the probes.
probe_test-append :
    (k h1 h2 bits : ℕ) (space tail : Bytes)
    → IsBitmap bits space
    → probe_test k h1 h2 bits (space ++ tail) ≡ probe_test k h1 h2 bits space
unfolding probe_test test_bit
probe_test-append zero h1 h2 bits space tail m = refl
probe_test-append (suc k) h1 h2 bits space tail m = rw (
  get_or-append space tail (h1 % bits / 8) (index_in h1 bits space m),
  probe_test-append k ((h1 + h2) % u32_mod) h2 bits space tail m,
)

last_of-append : (bs : Bytes) (b : ℕ) → last_of (bs ++ b ∷ []) ≡ b
last_of-append [] b = refl
last_of-append (c ∷ []) b = refl
last_of-append (c ∷ d ∷ bs) b = last_of-append (d ∷ bs) b

-- A filter that is ready for keys.
pub record IsReady (f : Bloom) : Type 0 where
  pub bitmap : IsBitmap f.bits f.space
  pub fits : f.bits < u32_mod
  pub probes : f.k ≤ 30

pub replicate-IsByte : (n : ℕ) → All IsByte (replicate n 0)
replicate-IsByte zero = tt
replicate-IsByte (suc n) = (omega arith, replicate-IsByte n)

pub length-replicate : (n : ℕ) → length (replicate {A = ℕ} n 0) ≡ n
length-replicate zero = refl
length-replicate (suc n) = ap suc (length-replicate n)

bloom_bytes_bounds :
    (b n : ℕ)
    → n * b % u32_mod + 7 < u32_mod
    → (8 ≤ bloom_bytes b n) × (bloom_bytes b n * 8 < u32_mod)
unfolding bloom_bytes
bloom_bytes_bounds b n h = ground arith

reset-IsReady :
    (n : ℕ) (f : Bloom)
    → f.k ≤ 30
    → n * f.bits_per_key % u32_mod + 7 < u32_mod
    → IsReady (reset n f)
unfolding reset
reset-IsReady n f hk hn =
    let size = bloom_bytes_bounds f.bits_per_key n hn in
    let len = length-replicate (bloom_bytes f.bits_per_key n) in
    record {
      bitmap = record {
        bytes = replicate-IsByte (bloom_bytes f.bits_per_key n);
        size = omega arith;
        some_bits = omega arith;
      };
      fits = omega arith;
      probes = hk;
    }

module _ (bloom_hash : Bytes → ℕ) where
  add_key-IsReady : (key : Bytes) (f : Bloom) → IsReady f → IsReady (add_key bloom_hash key f)
  unfolding add_key
  add_key-IsReady key f r = record {
    bitmap = probe_set-IsBitmap _ _ _ _ _ r.bitmap;
    fits = r.fits;
    probes = r.probes;
  }

  abbrev Matches : Bytes → Bloom → Type 0
  Matches key f =
      probe_test f.k (bloom_hash key % u32_mod) (bloom_hash key / u32_mod % u32_mod) f.bits f.space
      ≡ true

  add_keys_keeps :
      (keys : List Bytes) (key : Bytes) (f : Bloom)
      → IsReady f
      → Matches key f
      → IsReady (add_keys bloom_hash keys f) × Matches key (add_keys bloom_hash keys f)
  unfolding add_keys
  add_keys_keeps [] key f r m = (r, m)
  add_keys_keeps (other ∷ keys) key f r m =
      add_keys_keeps keys key (add_key bloom_hash other f) (add_key-IsReady other f r)
        (unfold add_key in probe_test_keeps f.k _ _ f.k _ _ f.bits f.space r.bitmap m)

  add_keys-Matches :
      (before after : List Bytes) (key : Bytes) (f : Bloom)
      → IsReady f
      → let g = add_keys bloom_hash (before ++ key ∷ after) f in IsReady g × Matches key g
  unfolding add_keys
  add_keys-Matches [] after key f r =
      add_keys_keeps after key (add_key bloom_hash key f) (add_key-IsReady key f r)
        (unfold add_key in probe_test-probe_set f.k _ _ f.bits f.space r.bitmap)
  add_keys-Matches (other ∷ before) after key f r =
      add_keys-Matches before after key (add_key bloom_hash other f) (add_key-IsReady other f r)

  finish-Matches :
      (key : Bytes) (f : Bloom)
      → IsReady f
      → Matches key f
      → may_match bloom_hash key (finish f) ≡ true
  unfolding may_match finish
  finish-Matches key f r m =
      let size : (length (f.space ++ f.k ∷ []) - 1) * 8 % u32_mod ≡ f.bits =
        omega (arith, length-append f.space (f.k ∷ [])) in
      rw
        (
          last_of-append f.space f.k,
          size,
          probe_test-append f.k _ _ f.bits f.space (f.k ∷ []) r.bitmap,
          m,
        )
        (ground arith)

  -- A key that was added since the filter was reset matches the filter that Finish returns,
  -- whatever other keys were added before and after. The number of probes is at most 30, and the
  -- bits asked for, as a uint32_t, leave room for rounding up.
  pub may_match-add_keys :
      (before after : List Bytes) (key : Bytes) (n : ℕ) (f : Bloom)
      → f.k ≤ 30
      → n * f.bits_per_key % u32_mod + 7 < u32_mod
      → may_match bloom_hash key (finish (add_keys bloom_hash (before ++ key ∷ after) (reset n f)))
        ≡ true
  may_match-add_keys before after key n f hk hn =
      let (ready, matches) =
        add_keys-Matches before after key (reset n f) (reset-IsReady n f hk hn) in
      finish-Matches key _ ready matches
