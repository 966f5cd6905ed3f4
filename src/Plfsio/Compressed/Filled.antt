-- ===== src/Plfsio/Compressed/Filled.antt =====
-- What the buckets hold after calls of Set, as long as no bucket's size wraps.
use deltafs.Prelude.{
  ℕ, zero, suc, ◌+◌, ◌-◌, ◌*◌, ◌/◌, ◌%◌, ◌<◌, ◌≤◌, ◌≡◌, ◌≢◌, refl, ◌∙◌, sym, ap, ◌||◌, ◌==◌, ltb,
  List, [], ◌∷◌, Bytes, length, arith, Bool-cases, inl, inr,
}
use deltafs.Plfsio.Compressed.{Row, put_at, set_row, set_in}
use deltafs.Plfsio.Compressed.Ranges.{one, count_in}
use deltafs.Plfsio.Compressed.Fetched.{slot_keys, slot_keys_none, held, AreBytes}
use deltafs.Plfsio.Delta.Sorted.{member}

length-put_at : (n v : ℕ) (slots : Bytes) → length (put_at n v slots) ≡ length slots
length-put_at n v [] = refl
length-put_at zero v (s ∷ slots) = refl
length-put_at (suc n) v (s ∷ slots) = ap suc (length-put_at n v slots)

put_at-AreBytes : (n v : ℕ) (slots : Bytes) → v < 256 → AreBytes slots → AreBytes (put_at n v slots)
put_at-AreBytes n v [] h bs = tt
put_at-AreBytes zero v (s ∷ slots) h bs = (h, bs.1)
put_at-AreBytes (suc n) v (s ∷ slots) h bs = (bs.0, put_at-AreBytes n v slots h bs.1)

-- A key that goes into the first free byte of its bucket.
member-put_at :
    (bit b n v : ℕ) (slots : Bytes)
    → n < length slots
    → member bit (slot_keys b (suc n) (put_at n v slots))
      ≡ ((v + b * 256 == bit) || member bit (slot_keys b n slots))
member-put_at bit b n v [] h = absurd (omega arith)
member-put_at bit b zero v (s ∷ slots) h = refl
member-put_at bit b (suc n) v (s ∷ slots) h =
    ground (arith, member-put_at bit b n v slots (omega arith))

-- A full bucket.
slot_keys_full :
    (b n : ℕ) (slots : Bytes) → length slots ≤ n → slot_keys b (suc n) slots ≡ slot_keys b n slots
slot_keys_full b n [] h = sym (slot_keys_none b n)
slot_keys_full b zero (s ∷ slots) h = absurd (omega arith)
slot_keys_full b (suc n) (s ∷ slots) h =
    ap (λ ks. (s + b * 256) ∷ ks) (slot_keys_full b n slots (omega arith))

-- A bucket, whose size is the number of the keys that were put in it, and some extra keys.
abbrev pub IsRow : ℕ → ℕ → ℕ → Row → Type 0
IsRow estimated keys extras r =
    (r.size ≡ keys)
    × (length r.slots ≡ estimated)
    × AreBytes r.slots
    × (extras ≡ r.size - estimated)

record Sets (estimated i b keys extras : ℕ) (r : Row) (p : Row × List ℕ) : Type 0 where
  row : IsRow estimated (1 + keys) (extras + count_in b p.1) p.0
  same :
      (bit : ℕ)
      → (member bit (slot_keys b p.0.size p.0.slots) || member bit p.1)
        ≡ ((i == bit) || member bit (slot_keys b r.size r.slots))

set_row-Sets :
    (estimated i b keys extras : ℕ) (r : Row)
    → i / 256 ≡ b
    → 1 + keys < 256
    → IsRow estimated keys extras r
    → Sets estimated i b keys extras r (set_row estimated i r)
set_row-Sets estimated i b keys extras r mine small h = elim (Bool-cases (ltb r.size estimated)) [
  | inl room ↦ rw room (record {
    row = (
      omega arith,
      length-put_at r.size (i % 256) r.slots ∙ h.1,
      put_at-AreBytes r.size (i % 256) r.slots (omega arith) h.2,
      ground arith,
    );
    same = λ bit.
        let grown : (r.size + 1) % 256 ≡ suc r.size = omega arith in
        let whole : i % 256 + b * 256 ≡ i = omega arith in
        rw grown
          (ground (arith, member-put_at bit b r.size (i % 256) r.slots (ground arith), whole));
  })
  | inr full ↦ rw full (record {
    row = (omega arith, h.1, h.2, ground arith);
    same = λ bit.
        let grown : (r.size + 1) % 256 ≡ suc r.size = omega arith in
        rw (grown, slot_keys_full b r.size r.slots (ground arith)) (ground arith);
  })
]

-- The buckets from `b` on, by the number of the keys that were put in each and of the extra ones.
abbrev pub AreRows : ℕ → (ℕ → ℕ) → (ℕ → ℕ) → ℕ → List Row → Type 0
AreRows estimated keys extras b [] = Unit {0}
AreRows estimated keys extras b (r ∷ rows) =
    IsRow estimated (keys b) (extras b) r × AreRows estimated keys extras (b + 1) rows

pub AreRows-other :
    (estimated b : ℕ) (keys keys' extras extras' : ℕ → ℕ) (rows : List Row)
    → ((c : ℕ) → b ≤ c → (keys' c ≡ keys c) × (extras' c ≡ extras c))
    → AreRows estimated keys extras b rows
    → AreRows estimated keys' extras' b rows
AreRows-other estimated b keys keys' extras extras' [] e h = tt
AreRows-other estimated b keys keys' extras extras' (r ∷ rows) e h =
    let same = e b (omega arith) in
    (
      (h.0.0 ∙ sym same.0, h.0.1, h.0.2, same.1 ∙ h.0.3),
      AreRows-other estimated (b + 1) keys keys' extras extras' rows (λ c lt. e c (omega arith))
          h.1,
    )

-- Only the key's bucket gets an extra key.
set_row_pushed :
    (estimated i c : ℕ) (r : Row) → i / 256 ≢ c → count_in c (set_row estimated i r).1 ≡ 0
set_row_pushed estimated i c r n = ground arith

set_in_pushed :
    (estimated i j c : ℕ) (rows : List Row)
    → i / 256 ≢ c
    → count_in c (set_in estimated i j rows).1 ≡ 0
set_in_pushed estimated i j c [] n = refl
set_in_pushed estimated i zero c (r ∷ rows) n = set_row_pushed estimated i c r n
set_in_pushed estimated i (suc j) c (r ∷ rows) n = set_in_pushed estimated i j c rows n

-- One more key.
abbrev pub more_keys : ℕ → (ℕ → ℕ) → ℕ → ℕ
more_keys i keys c = one (i / 256 == c) + keys c

abbrev pub more_extras : List ℕ → (ℕ → ℕ) → ℕ → ℕ
more_extras pushed extras c = extras c + count_in c pushed

pub record SetsIn (estimated i b : ℕ) (keys extras : ℕ → ℕ) (rows : List Row)
    (p : List Row × List ℕ) : Type 0 where
  pub all_rows : AreRows estimated (more_keys i keys) (more_extras p.1 extras) b p.0
  pub same_length : length p.0 ≡ length rows
  pub same : (bit : ℕ) → (held bit b p.0 || member bit p.1) ≡ ((i == bit) || held bit b rows)

pub set_in-SetsIn :
    (estimated i j b : ℕ) (keys extras : ℕ → ℕ) (rows : List Row)
    → i / 256 ≡ b + j
    → j < length rows
    → 1 + keys (i / 256) < 256
    → AreRows estimated keys extras b rows
    → SetsIn estimated i b keys extras rows (set_in estimated i j rows)
set_in-SetsIn estimated i j b keys extras [] mine j_lt small h = absurd (omega arith)
set_in-SetsIn estimated i zero b keys extras (r ∷ rows) mine j_lt small h =
    let mine_b : i / 256 ≡ b = omega arith in
    let s =
      set_row-Sets estimated i b (keys b) (extras b) r mine_b (omega (arith, ap keys mine_b)) h.0 in
    record {
      all_rows = (
        (ground (arith, s.row.0, mine_b), s.row.1, s.row.2, s.row.3),
        AreRows-other estimated (b + 1) keys _ extras _ rows
            (λ c lt. (ground arith, omega (arith, set_row_pushed estimated i c r (omega arith))))
            h.1,
      );
      same_length = refl;
      same = λ bit. ground (arith, s.same bit);
    }
set_in-SetsIn estimated i (suc j) b keys extras (r ∷ rows) mine j_lt small h =
    let s =
      set_in-SetsIn estimated i j (b + 1) keys extras rows (omega arith) (omega arith) small h.1 in
    let none_here = set_in_pushed estimated i j b rows (omega arith) in
    record {
      all_rows = ((ground (arith, h.0.0), h.0.1, h.0.2, omega (arith, h.0.3)), s.all_rows);
      same_length = ap suc s.same_length;
      same = λ bit. ground (arith, s.same bit);
    }
