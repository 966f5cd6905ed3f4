-- ===== src/Plfsio/Delta/Varint.antt =====
-- Both codings are read back, whatever follows.
use deltafs.Prelude.{
  ℕ, zero, suc, ◌+◌, ◌-◌, ◌*◌, ◌/◌, ◌%◌, ◌^◌, ◌<◌, ◌≡◌, ltb, [], ◌∷◌, ◌++◌, Bytes, arith, ap, ◌∙◌,
  Bool-cases, inl, inr,
}
use native.Mathlib.Numerals.{towards_suc}
use native.Mathlib.Nat.{div-add-mod}
use deltafs.Plfsio.Delta.{vb_rounds, vb_enc, vb_loop, vb_dec, vb_plus_enc, vb_plus_dec, u32_mod}

pow_seven : (s : ℕ) → 2 ^ (s + 7) ≡ 128 * 2 ^ s
pow_seven s = simp towards_suc (omega arith)

split_group : (v s : ℕ) → v * 2 ^ s ≡ v % 128 * 2 ^ s + v / 128 * 2 ^ (s + 7)
split_group v s = omega (
  arith,
  ap (λ (t : ℕ). t * 2 ^ s) (div-add-mod v 128),
  ap (λ (t : ℕ). v / 128 * t) (pow_seven s),
)

-- One round on the last byte, and on a byte with the flag.
last_byte :
    (g result shift : ℕ) (rest : Bytes)
    → g < 128
    → result + g * 2 ^ shift < u32_mod
    → vb_loop (g ∷ rest) result shift ≡ (result + g * 2 ^ shift, rest)
unfolding vb_loop
last_byte g result shift rest h fits = let low : g % 128 ≡ g = omega arith in rw low (ground arith)

flagged_byte :
    (g result shift : ℕ) (rest : Bytes)
    → g < 128
    → result + g * 2 ^ shift < u32_mod
    → vb_loop ((g + 128) ∷ rest) result shift ≡ vb_loop rest (result + g * 2 ^ shift) (shift + 7)
unfolding vb_loop
flagged_byte g result shift rest h fits =
    let low : (g + 128) % 128 ≡ g = omega arith in
    let wrap : (result + g * 2 ^ shift) % u32_mod ≡ result + g * 2 ^ shift = omega arith in
    rw (low, wrap) (ground arith)

vb_rounds_small : (n v : ℕ) → v < 128 → vb_rounds n v ≡ v ∷ []
unfolding vb_rounds
vb_rounds_small zero v h = ground arith
vb_rounds_small (suc n) v h = ground arith

vb_rounds_big : (n v : ℕ) → 127 < v → vb_rounds (suc n) v ≡ (v % 128 + 128) ∷ vb_rounds n (v / 128)
unfolding vb_rounds
vb_rounds_big n v h = ground arith

pair_path : (a b : ℕ) (rest : Bytes) → a ≡ b → ◌≡◌ {A = ℕ × Bytes} (a, rest) (b, rest)
pair_path a b rest e = ap (λ n. (n, rest)) e

vb_loop-rounds :
    (n v result shift : ℕ) (rest : Bytes)
    → v < 128 ^ suc n
    → result + v * 2 ^ shift < u32_mod
    → vb_loop (vb_rounds n v ++ rest) result shift ≡ (result + v * 2 ^ shift, rest)
vb_loop-rounds zero v result shift rest h fits =
    rw (vb_rounds_small 0 v (omega arith)) (last_byte v result shift rest (omega arith) fits)
vb_loop-rounds (suc n) v result shift rest h fits = elim (Bool-cases (ltb 127 v)) [
  | inl big ↦
      let inside : result + v % 128 * 2 ^ shift < u32_mod = omega (arith, split_group v shift) in
      rw (vb_rounds_big n v (ground arith)) (
        flagged_byte (v % 128) result shift (vb_rounds n (v / 128) ++ rest) (omega arith) inside
        ∙ vb_loop-rounds n (v / 128) (result + v % 128 * 2 ^ shift) (shift + 7) rest (omega arith)
            (omega (arith, split_group v shift))
        ∙ pair_path _ _ rest (omega (arith, split_group v shift)))
  | inr small ↦
      rw (vb_rounds_small (suc n) v (ground arith))
        (last_byte v result shift rest (ground arith) fits)
]

-- VbDec reads back the uint32_t that VbEnc wrote, and leaves what follows it.
pub vb_dec-vb_enc : (v : ℕ) (rest : Bytes) → v < u32_mod → vb_dec (vb_enc v ++ rest) ≡ (v, rest)
unfolding vb_dec vb_enc
vb_dec-vb_enc v rest h =
    vb_loop-rounds 4 v 0 0 rest (omega arith) (omega arith) ∙ pair_path _ _ rest (omega arith)

-- VbPlusDec reads back the uint32_t that VbPlusEnc wrote, and leaves what follows it.
pub vb_plus_dec-vb_plus_enc :
    (v : ℕ) (rest : Bytes) → v < u32_mod → vb_plus_dec (vb_plus_enc v ++ rest) ≡ (v, rest)
unfolding vb_plus_dec vb_plus_enc
vb_plus_dec-vb_plus_enc v rest h = elim (Bool-cases (ltb v 255)) [
  | inl one ↦ rw one (ground arith)
  | inr more ↦
      rw (more, vb_dec-vb_enc (v - 254) rest (omega arith)) (pair_path _ _ rest (ground arith))
]
