-- ===== src/Tests/Plfsio.antt =====
-- The filters at concrete inputs.
use deltafs.Prelude.{ℕ, ◌+◌, ◌≡◌, refl, true, false, some, List, [], ◌∷◌, ◌++◌, Bytes, arith}
use mathlib.Core.Option
use deltafs.Plfsio.Bloom.{Bloom, reset, add_keys, finish, may_match}
use deltafs.Plfsio.Bloom.Matches.{may_match-add_keys}
use deltafs.Plfsio.Bitmap
use deltafs.Plfsio.Bitmap.Exact.{test-set_all}
use deltafs.Plfsio.Delta.{
  vb_enc, vb_dec, vb_plus_enc, vb_plus_dec, vb_test, vb_finish, vb_plus_test, vb_plus_finish,
  vb_rounds,
}
use deltafs.Plfsio.Delta.Varint.{vb_dec-vb_enc, vb_plus_dec-vb_plus_enc}
use deltafs.Plfsio.Delta.Exact.{vb_test-vb_finish, vb_plus_test-vb_plus_finish}
use deltafs.Plfsio.Compressed
use deltafs.Plfsio.Compressed.Ranges.{count_in_le}
use deltafs.Plfsio.Compressed.Kept.{NoneFull}

-- A stand-in for the hash of the keys.
abbrev sum_hash : Bytes → ℕ
sum_hash [] = 7
sum_hash (b ∷ bs) = b + sum_hash bs

abbrev two_probes : Bloom
two_probes = record { k = 2; bits_per_key = 10; bits = 0; space = [] }

may_match-add_keys_example :
    may_match sum_hash
      (5 ∷ [])
      (finish (add_keys sum_hash ((1 ∷ []) ∷ (5 ∷ []) ∷ (9 ∷ []) ∷ []) (reset 3 two_probes)))
    ≡ true
may_match-add_keys_example =
    may_match-add_keys sum_hash ((1 ∷ []) ∷ []) ((9 ∷ []) ∷ []) (5 ∷ []) 3 two_probes (omega arith)
      (omega arith)

vb_enc_300 : vb_enc 300 ≡ 0xac ∷ 2 ∷ []
unfolding vb_enc vb_rounds
vb_enc_300 = refl

vb_dec-vb_enc_example : vb_dec (vb_enc 300 ++ 9 ∷ []) ≡ (300, 9 ∷ [])
vb_dec-vb_enc_example = vb_dec-vb_enc 300 (9 ∷ []) (omega arith)

vb_plus_dec-vb_plus_enc_example : vb_plus_dec (vb_plus_enc 300 ++ 9 ∷ []) ≡ (300, 9 ∷ [])
vb_plus_dec-vb_plus_enc_example = vb_plus_dec-vb_plus_enc 300 (9 ∷ []) (omega arith)

-- Two keys of bucket 0, with room for one in it, and one of bucket 1.
abbrev three_keys : List ℕ
three_keys = 7 ∷ 300 ∷ 3 ∷ []

three_keys-NoneFull : NoneFull three_keys
three_keys-NoneFull b = omega (arith, count_in_le b three_keys)

vb_test-vb_finish_example :
    Option.map (vb_test 300) (vb_finish (Compressed.set_all three_keys (Compressed.reset 9 2)))
    ≡ some true
vb_test-vb_finish_example =
    vb_test-vb_finish 9 2 three_keys 300 (omega arith) (omega arith) (omega arith)
      three_keys-NoneFull

vb_plus_test-vb_plus_finish_example :
    Option.map
      (vb_plus_test 4)
      (vb_plus_finish (Compressed.set_all three_keys (Compressed.reset 9 2)))
    ≡ some false
vb_plus_test-vb_plus_finish_example =
    vb_plus_test-vb_plus_finish 9 2 three_keys 4 (omega arith) (omega arith) (omega arith)
      three_keys-NoneFull

test-set_all_example : Bitmap.test 300 (Bitmap.set_all (7 ∷ 300 ∷ []) (Bitmap.reset 9)) ≡ true
test-set_all_example = test-set_all 9 (7 ∷ 300 ∷ []) 300 (omega arith, (omega arith, tt))
