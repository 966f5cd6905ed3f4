-- ===== src/Plfsio/Delta/Exact.antt =====
-- The filters of VbFormat and VbPlusFormat hold exactly the keys that were put in.
use deltafs.Prelude.{
  ℕ, zero, suc, ◌+◌, ◌-◌, ◌%◌, ◌^◌, ◌<◌, ◌≤◌, ◌≡◌, refl, true, false, ◌==◌, ltb, List, [], ◌∷◌,
  ◌++◌, some, Bytes, length, length-append, arith, if◌then◌else◌, ap, ◌∙◌, sym,
}
use mathlib.Core.Option
use mathlib.Core.List.{append_assoc}
use deltafs.Plfsio.Delta.{
  vb_rounds, vb_enc, vb_dec, vb_plus_enc, vb_plus_dec, u32_mod, scan, vb_test, vb_plus_test,
  put_deltas, last_key, put_buckets, vb_finish, vb_plus_finish,
}
use deltafs.Plfsio.Compressed.{sort, reset, set_all}
use deltafs.Plfsio.Compressed.Ranges.{AllBelow}
use deltafs.Plfsio.Compressed.Kept.{set_all-Kept, NoneFull}
use deltafs.Plfsio.Delta.Sorted.{
  member, member_any, InBuckets, Ascending, not-member-below, all_sorted, all_sorted-Ascending,
  member-all_sorted,
}
use deltafs.Plfsio.Delta.Varint.{vb_dec-vb_enc, vb_plus_dec-vb_plus_enc}

-- A coding of deltas that is read back, and takes a byte at least.
record Coding : Type 0 where
  enc : ℕ → Bytes
  dec : Bytes → ℕ × Bytes
  back : (v : ℕ) (rest : Bytes) → v < u32_mod → dec (enc v ++ rest) ≡ (v, rest)
  some_bytes : (v : ℕ) → 0 < length (enc v)

module _ (c : Coding) where
  open c use {enc, dec, back, some_bytes}

  scan_step :
      (fuel bit base delta : ℕ) (bs rest : Bytes)
      → 0 < length bs
      → dec bs ≡ (delta, rest)
      → scan dec (suc fuel) bit base bs ≡ (
          if (base + delta) % u32_mod == bit
          then true
          else if ltb bit ((base + delta) % u32_mod)
          then false
          else scan dec fuel bit ((base + delta) % u32_mod) rest)
  unfolding scan
  scan_step fuel bit base delta [] rest h e = absurd (omega arith)
  scan_step fuel bit base delta (b ∷ input) rest h e =
      ap
        (λ (p : ℕ × Bytes).
          if (base + p.0) % u32_mod == bit
          then true
          else if ltb bit ((base + p.0) % u32_mod)
          then false
          else scan dec fuel bit ((base + p.0) % u32_mod) p.1)
        e

  scan_found :
      (fuel bit k : ℕ) (ks : List ℕ) (rest : Bytes)
      → Ascending k ks
      → scan dec fuel bit k rest ≡ member bit ks
      → (if k == bit then true else if ltb bit k then false else scan dec fuel bit k rest)
        ≡ member bit (k ∷ ks)
  scan_found fuel bit k ks rest a ih = ground (arith, not-member-below bit k ks a)

  scan-put_deltas :
      (ks : List ℕ) (fuel bit base : ℕ)
      → Ascending base ks
      → length (put_deltas enc base ks) ≤ fuel
      → scan dec fuel bit base (put_deltas enc base ks) ≡ member bit ks
  unfolding put_deltas
  scan-put_deltas [] zero bit base a h = unfold scan in refl
  scan-put_deltas [] (suc fuel) bit base a h = unfold scan in refl
  scan-put_deltas (k ∷ ks) zero bit base a h = absurd (
      omega (
        arith,
        some_bytes ((k + u32_mod - base) % u32_mod),
        length-append (enc ((k + u32_mod - base) % u32_mod)) (put_deltas enc k ks),
      ))
  scan-put_deltas (k ∷ ks) (suc fuel) bit base a h =
      let delta = (k + u32_mod - base) % u32_mod in
      let rest = put_deltas enc k ks in
      let grows = some_bytes delta in
      let len = length-append (enc delta) rest in
      let next : (base + delta) % u32_mod ≡ k = omega arith in
      scan_step fuel bit base delta (enc delta ++ rest) rest (omega arith)
        (back delta rest (omega arith))
      ∙ rw next
          (scan_found fuel bit k ks rest a.2 (scan-put_deltas ks fuel bit k a.2 (omega arith)))

put_deltas-append :
    (enc : ℕ → Bytes) (last : ℕ) (ks js : List ℕ)
    → put_deltas enc last (ks ++ js)
      ≡ put_deltas enc last ks ++ put_deltas enc (last_key last ks) js
unfolding put_deltas
put_deltas-append enc last [] js = refl
put_deltas-append enc last (k ∷ ks) js =
    rw (put_deltas-append enc k ks js)
      (sym (append_assoc (enc ((k + u32_mod - last) % u32_mod)) (put_deltas enc k ks) _))

put_buckets-deltas :
    (enc : ℕ → Bytes) (last : ℕ) (buckets : List (List ℕ))
    → put_buckets enc last buckets ≡ put_deltas enc last (all_sorted buckets)
unfolding put_buckets
put_buckets-deltas enc last [] = unfold put_deltas in refl
put_buckets-deltas enc last (ks ∷ buckets) = rw (
  put_buckets-deltas enc (last_key last (sort ks)) buckets,
  put_deltas-append enc last (sort ks) (all_sorted buckets),
)

scan-put_buckets :
    (c : Coding) (bit : ℕ) (buckets : List (List ℕ))
    → InBuckets 0 buckets
    → scan c.dec (length (put_buckets c.enc 0 buckets)) bit 0 (put_buckets c.enc 0 buckets)
      ≡ member_any bit buckets
scan-put_buckets c bit buckets h = rw (put_buckets-deltas c.enc 0 buckets) (
    scan-put_deltas c (all_sorted buckets) _ bit 0 (all_sorted-Ascending 0 buckets h) (omega arith)
    ∙ member-all_sorted bit buckets)

vb_rounds_some : (n v : ℕ) → 0 < length (vb_rounds n v)
unfolding vb_rounds
vb_rounds_some zero v = omega arith
vb_rounds_some (suc n) v = ground arith

vb_plus_enc_some : (v : ℕ) → 0 < length (vb_plus_enc v)
unfolding vb_plus_enc
vb_plus_enc_some v = ground arith

vb_enc_some : (v : ℕ) → 0 < length (vb_enc v)
unfolding vb_enc
vb_enc_some v = vb_rounds_some 4 v

vb : Coding
vb = record { enc = vb_enc; dec = vb_dec; back = vb_dec-vb_enc; some_bytes = vb_enc_some }

vb_plus : Coding
vb_plus = record {
  enc = vb_plus_enc;
  dec = vb_plus_dec;
  back = vb_plus_dec-vb_plus_enc;
  some_bytes = vb_plus_enc_some;
}

-- VbFormat: after Reset for some number of keys and Set for each key, Finish fails no assertion, and
-- Test finds a bit in the bitmap it writes exactly when the bit is one of the keys. The keys have
-- `key_bits` bits, from 8 to 31, and no bucket of 256 bits gets more than 255 calls of Set, repeated
-- ones included.
pub vb_test-vb_finish :
    (key_bits num_keys : ℕ) (keys : List ℕ) (bit : ℕ)
    → 8 ≤ key_bits
    → key_bits < 32
    → AllBelow (2 ^ key_bits) keys
    → NoneFull keys
    → Option.map (vb_test bit) (vb_finish (set_all keys (reset key_bits num_keys)))
      ≡ some (member bit keys)
unfolding vb_test vb_finish vb
vb_test-vb_finish key_bits num_keys keys bit lo hi below small =
    let k = set_all-Kept key_bits num_keys keys lo hi below small in
    ap (λ o. Option.map (vb_test bit) (Option.map (put_buckets vb_enc 0) o)) k.result
    ∙ ap some (scan-put_buckets vb bit k.buckets k.inside ∙ k.same bit)

-- VbPlusFormat: after Reset for some number of keys and Set for each key, Finish fails no assertion,
-- and Test finds a bit in the bitmap it writes exactly when the bit is one of the keys. The keys have
-- `key_bits` bits, from 8 to 31, and no bucket of 256 bits gets more than 255 calls of Set, repeated
-- ones included.
pub vb_plus_test-vb_plus_finish :
    (key_bits num_keys : ℕ) (keys : List ℕ) (bit : ℕ)
    → 8 ≤ key_bits
    → key_bits < 32
    → AllBelow (2 ^ key_bits) keys
    → NoneFull keys
    → Option.map (vb_plus_test bit) (vb_plus_finish (set_all keys (reset key_bits num_keys)))
      ≡ some (member bit keys)
unfolding vb_plus_test vb_plus_finish vb_plus
vb_plus_test-vb_plus_finish key_bits num_keys keys bit lo hi below small =
    let k = set_all-Kept key_bits num_keys keys lo hi below small in
    ap (λ o. Option.map (vb_plus_test bit) (Option.map (put_buckets vb_plus_enc 0) o)) k.result
    ∙ ap some (scan-put_buckets vb_plus bit k.buckets k.inside ∙ k.same bit)
