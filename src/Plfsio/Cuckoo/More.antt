-- ===== src/Plfsio/Cuckoo/More.antt =====
-- Building further tables of a cuckoo filter, MaybeBuildMoreTables of
-- src/libdeltafs/plfsio/v1/cuckoo.cc: a table that takes all keys that were set aside has them all.
use mathlib.Core.Path.{subst}
use mathlib.Core.Bool.{true≢false}
use native.Mathlib.Nat.{mod-eq_of_lt}
use deltafs.Prelude.{
  ℕ, zero, suc, ◌%◌, ◌^◌, ◌<◌, ◌≤◌, ◌≡◌, refl, Bool, true, false, ◌==◌, ltb, List, [], ◌∷◌, ◌++◌,
  Bytes, length, length-append, take, drop, All, if◌then◌else◌, arith, ◌⊎◌, inl, inr, ◌∙◌, sym, ap,
}
use deltafs.Plfsio.Cuckoo.Table.{Table, Doubles, u32_mod, reset_table, resize}
use deltafs.Plfsio.Cuckoo.Kept.{IsTable, Holds}
use deltafs.Plfsio.Cuckoo.Block.{
  CuckooOptions, Common, Block, Filled, stray_read, filled, add_hashed, fill, head_or_zero, tail_of,
}
use deltafs.Plfsio.Cuckoo.Bytes.{take-append, drop-append}
use deltafs.Plfsio.Cuckoo.Added.{
  Entry, sizes_of, bytes_of, values_of, AmongEntries, IsHash, HoldsEntry, add_hashed-IsAdded,
}
use deltafs.Plfsio.Cuckoo.Staged.{IsShort}

-- No key is left, and none was read out of range.
unfoldable pub all_taken : Filled → Bool
all_taken stray_read = false
all_taken (filled [] values start t rnd) = true
all_taken (filled (size ∷ sizes) values start t rnd) = false

module _ (d : Doubles) (c : Common) (o : CuckooOptions d) (k v : ℕ) where
  -- Only the low bits of a value count.
  same_low_bits :
      (t : Table) (home f x z : ℕ)
      → x % 2 ^ v ≡ z % 2 ^ v
      → Holds k v t home f x
      → Holds k v t home f z
  same_low_bits t home f x z e (inl s) = inl (record {
    bucket = s.bucket;
    slot = s.slot;
    at_home = s.at_home;
    in_bucket = s.in_bucket;
    key = s.key;
    content = s.content ∙ e;
  })
  same_low_bits t home f x z e (inr s) =
      inr
        (record { is_full = s.is_full; key = s.key; content = s.content ∙ e; at_home = s.at_home })

  -- The value that a table takes for an entry.
  abbrev value_for : ℕ → ℕ
  value_for value = if v == 0 then 0 else value

  value_for_same : (value : ℕ) → value_for value % 2 ^ v ≡ value % 2 ^ v
  value_for_same value = low v value
    where
      low : (w value : ℕ) → (if w == 0 then 0 else value) % 2 ^ w ≡ value % 2 ^ w
      low zero value = omega arith
      low (suc w) value = let used : (suc w == 0) ≡ false = ground arith in rw used refl

  module _ (key : Bytes) (value : ℕ) (es : List Entry) (t : Table) (rnd : ℕ) where
    -- The body of the loop, by what it reads.
    abbrev round : ℕ → ℕ → Bytes → Bytes → List ℕ → Bool → Filled
    round size x bytes start values ends =
        let (t', rnd') = add_hashed d c o k v bytes x t rnd in
        elim ends [
          | true ↦ stray_read
          | false ↦ elim t'.full [
            | true ↦ filled (size ∷ sizes_of es) (values_of v ((key, value) ∷ es)) start t' rnd'
            | false ↦ fill d c o k v (sizes_of es) values start t' rnd'
          ]
        ]

    first_value :
        (if v == 0 then 0 else head_or_zero (values_of v ((key, value) ∷ es))) ≡ value_for value
    first_value = head v
      where
        head :
            (w : ℕ)
            → (if w == 0 then 0 else head_or_zero (values_of w ((key, value) ∷ es)))
              ≡ (if w == 0 then 0 else value)
        head zero = refl
        head (suc w) = refl

    other_values : tail_of (values_of v ((key, value) ∷ es)) ≡ values_of v es
    other_values = tail v
      where
        tail : (w : ℕ) → tail_of (values_of w ((key, value) ∷ es)) ≡ values_of w es
        tail zero = refl
        tail (suc w) = refl

    fill-round :
        length key < u32_mod
        → fill d c o k v
            (sizes_of ((key, value) ∷ es))
            (values_of v ((key, value) ∷ es))
            (bytes_of ((key, value) ∷ es))
            t
            rnd
          ≡ round (length key) (value_for value) key (bytes_of es) (values_of v es) false
    unfolding fill
    fill-round short =
        let start = key ++ bytes_of es in
        let n = length key in
        let vs = tail_of (values_of v ((key, value) ∷ es)) in
        let joined = length-append key (bytes_of es) in
        let inside : ltb (length start) n ≡ false = ground arith in
        ap
          (λ s.
            round s (if v == 0 then 0 else head_or_zero (values_of v ((key, value) ∷ es)))
              (take s start) (drop s start) vs (ltb (length start) s))
          (mod-eq_of_lt short)
        ∙ (ap (λ x. round n x (take n start) (drop n start) vs (ltb (length start) n)) first_value
            ∙ (ap (λ bs. round n (value_for value) bs (drop n start) vs (ltb (length start) n))
                  (take-append n key (bytes_of es) refl)
                ∙ (ap (λ bs. round n (value_for value) key bs vs (ltb (length start) n))
                      (drop-append n key (bytes_of es) refl)
                    ∙ (ap
                          (λ ws.
                            round n (value_for value) key (bytes_of es) ws (ltb (length start) n))
                          other_values
                        ∙ ap (round n (value_for value) key (bytes_of es) (values_of v es))
                            inside))))

  -- A table that took all entries has them and what another had.
  abbrev pub HasAll : Table → List Entry → Filled → Type 0
  HasAll t es (filled [] values start r rnd) =
      ((m : ℕ) × IsTable k v m r)
      × ((e : Entry) → HoldsEntry d c o k v t e ⊎ AmongEntries e es → HoldsEntry d c o k v r e)
  HasAll t es stray_read = ⊥
  HasAll t es (filled (size ∷ sizes) values start r rnd) = ⊥

  module _ (hash : IsHash c) (some : 0 < k) (narrow : k ≤ 32) where
    -- More entries for a table that has some.
    one_entry_more :
        (t t' : Table) (e : Entry) (es : List Entry) (f : Filled)
        → HoldsEntry d c o k v t' e
        → ((g : Entry) → HoldsEntry d c o k v t g → HoldsEntry d c o k v t' g)
        → HasAll t' es f
        → HasAll t (e ∷ es) f
    one_entry_more t t' e es stray_read stored kept h = elim h [ ]
    one_entry_more t t' e es (filled (size ∷ sizes) values start r rnd) stored kept h = elim h [ ]
    one_entry_more t t' e es (filled [] values start r rnd) stored kept h = (
      h.0,
      λ g had. h.1 g (elim had [
        | inl before ↦ inl (kept g before)
        | inr (inl same) ↦ inl (subst (HoldsEntry d c o k v t') same stored)
        | inr (inr later) ↦ inr later
      ]),
    )

    unless_full :
        (t : Table) (es : List Entry) (full : Bool) (stopped next : Filled)
        → all_taken stopped ≡ false
        → (full ≡ false → all_taken next ≡ true → HasAll t es next)
        → let f = elim full as (λ x. Filled) [ true ↦ stopped | false ↦ next ] in
          all_taken f ≡ true → HasAll t es f
    unless_full t es true stopped next e go h = absurd (true≢false (sym h ∙ e))
    unless_full t es false stopped next e go h = go refl h

    pub fill-HasAll :
        (es : List Entry) (t : Table) (rnd m : ℕ)
        → All IsShort es
        → IsTable k v m t
        → t.full ≡ false
        → all_taken (fill d c o k v (sizes_of es) (values_of v es) (bytes_of es) t rnd) ≡ true
        → HasAll t es (fill d c o k v (sizes_of es) (values_of v es) (bytes_of es) t rnd)
    unfolding fill all_taken
    fill-HasAll [] t rnd m short w unfilled h =
        ((m, w), λ e had. elim had [ inl stored ↦ stored | inr none ↦ elim none [ ] ])
    fill-HasAll ((key, value) ∷ es) t rnd m (here, short) w unfilled h =
        let x = value_for value in
        let g = add_hashed-IsAdded d c o k v hash some narrow key x t rnd m w unfilled in
        let eq = fill-round key value es t rnd here in
        let r = add_hashed d c o k v key x t rnd in
        subst (HasAll t ((key, value) ∷ es)) (sym eq) (
          unless_full t ((key, value) ∷ es) r.0.full _
            (fill d c o k v (sizes_of es) (values_of v es) (bytes_of es) r.0 r.1) refl
            (λ room taken.
              one_entry_more t r.0 (key, value) es _
                (same_low_bits r.0 _ _ x value (value_for_same value) g.added) g.kept
                (fill-HasAll es r.0 r.1 g.exponent short g.table room taken))
            (subst (λ f. all_taken f ≡ true) eq h))

  -- The first of the further tables, before it is filled.
  abbrev pub next_table : ℕ → Table
  next_table n = resize d d.high_rate n (reset_table d d.high_rate 0)

  -- All keys that were set aside fit into one more table.
  unfoldable pub one_more : Block → Bool
  one_more b =
      all_taken (fill d c o k v b.key_sizes b.values b.keys (next_table (length b.key_sizes)) b.rnd)

  pub unfilled_next : (n : ℕ) → (next_table n).full ≡ false
  unfolding resize reset_table
  unfilled_next n = refl
