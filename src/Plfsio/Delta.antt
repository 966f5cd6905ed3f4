-- ===== src/Plfsio/Delta.antt =====
-- The delta codings of VbFormat and VbPlusFormat in src/libdeltafs/plfsio/v1/filter.cc, and the
-- bitmap filters over them. A `uint32_t` wraps at 2 ^ 32.
pub mod Varint
pub mod Sorted
pub mod Exact
use deltafs.Prelude.{
  ℕ, zero, suc, ◌+◌, ◌-◌, ◌*◌, ◌/◌, ◌%◌, ◌^◌, ◌<◌, ◌≤◌, ◌≡◌, refl, Bool, true, false, ◌&&◌, ◌||◌,
  not, ◌==◌, ltb, List, [], ◌∷◌, ◌++◌, Option, Bytes, length, arith, if◌then◌else◌,
}
use mathlib.Core.Option
use deltafs.Plfsio.Compressed.{Compressed, sort, buckets_of}

abbrev pub u32_mod : ℕ
u32_mod = 2 ^ 32

-- VbFormat::VbEnc: seven bits a byte, the lowest first. Five bytes hold a uint32_t, so four rounds of
-- the loop are enough.
unfoldable pub vb_rounds : ℕ → ℕ → Bytes
vb_rounds zero v = v % 128 ∷ []
vb_rounds (suc n) v =
    let rest = vb_rounds n (v / 128) in if ltb 127 v then (v % 128 + 128) ∷ rest else v % 128 ∷ []

unfoldable pub vb_enc : ℕ → Bytes
vb_enc v = vb_rounds 4 v

-- The loop of VbFormat::VbDec, `shift` being 7 * i. The groups are disjoint, so `|=` is `+`.
unfoldable pub vb_loop : Bytes → ℕ → ℕ → ℕ × Bytes
vb_loop [] result shift = (result, [])
vb_loop (b ∷ input) result shift =
    let result' = (result + b % 128 * 2 ^ shift) % u32_mod in
    let more = vb_loop input result' (shift + 7) in
    if b / 128 % 2 == 0 then (result', input) else more

unfoldable pub vb_dec : Bytes → ℕ × Bytes
vb_dec input = vb_loop input 0 0

-- VbPlusFormat: a value below 255 is one full byte.
unfoldable pub vb_plus_enc : ℕ → Bytes
vb_plus_enc v = if ltb v 255 then v ∷ [] else 255 ∷ vb_enc (v - 254)

unfoldable pub vb_plus_dec : Bytes → ℕ × Bytes
vb_plus_dec [] = (0, [])
vb_plus_dec (b ∷ input) =
    let (v, rest) = vb_dec input in if b == 255 then ((v + 254) % u32_mod, rest) else (b, input)

-- The loop of Test. Each round takes a byte at least, so the length of the input is enough fuel.
unfoldable pub scan : (Bytes → ℕ × Bytes) → ℕ → ℕ → ℕ → Bytes → Bool
scan dec fuel bit base [] = false
scan dec zero bit base (b ∷ input) = false
scan dec (suc fuel) bit base (b ∷ input) =
    let (delta, rest) = dec (b ∷ input) in
    let base' = (base + delta) % u32_mod in
    let more = scan dec fuel bit base' rest in
    if base' == bit then true else if ltb bit base' then false else more

unfoldable pub vb_test : ℕ → Bytes → Bool
vb_test bit bitmap = scan vb_dec (length bitmap) bit 0 bitmap

unfoldable pub vb_plus_test : ℕ → Bytes → Bool
vb_plus_test bit bitmap = scan vb_plus_dec (length bitmap) bit 0 bitmap

-- The inner loop of Finish: each key as the difference from the one before.
unfoldable pub put_deltas : (ℕ → Bytes) → ℕ → List ℕ → Bytes
put_deltas enc last [] = []
put_deltas enc last (k ∷ ks) = enc ((k + u32_mod - last) % u32_mod) ++ put_deltas enc k ks

abbrev pub last_key : ℕ → List ℕ → ℕ
last_key last [] = last
last_key last (k ∷ ks) = last_key k ks

-- The outer loop of Finish, over the keys of each bucket in the order of the buckets.
unfoldable pub put_buckets : (ℕ → Bytes) → ℕ → List (List ℕ) → Bytes
put_buckets enc last [] = []
put_buckets enc last (ks ∷ buckets) =
    put_deltas enc last (sort ks) ++ put_buckets enc (last_key last (sort ks)) buckets

-- Finish; none if Iter fails its assertion.
unfoldable pub vb_finish : Compressed → Option Bytes
vb_finish c = Option.map (put_buckets vb_enc 0) (buckets_of c)

unfoldable pub vb_plus_finish : Compressed → Option Bytes
vb_plus_finish c = Option.map (put_buckets vb_plus_enc 0) (buckets_of c)
