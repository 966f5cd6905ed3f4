-- ===== src/Plfsio/Cuckoo/Finished.antt =====
-- The tables of a finished cuckoo filter of src/libdeltafs/plfsio/v1/cuckoo.cc have every key that
-- was added, if one more table takes the keys that the main table has not.
use mathlib.Core.Path.{subst}
use deltafs.Prelude.{
  ℕ, zero, suc, ◌<◌, ◌≤◌, ◌≡◌, refl, Bool, true, List, [], ◌∷◌, Bytes, length, All, arith, ◌⊎◌, inl,
  inr, ◌∙◌, sym, ap,
}
use deltafs.Plfsio.Cuckoo.Table.{Table, Doubles, u32_mod}
use deltafs.Plfsio.Cuckoo.Kept.{IsTable}
use deltafs.Plfsio.Cuckoo.Block.{
  CuckooOptions, Common, Block, Filled, stray_read, filled, Built, built, strayed, fill, build_more,
  all_tables,
}
use deltafs.Plfsio.Cuckoo.Fresh.{IsRate, resize-IsTable}
use deltafs.Plfsio.Cuckoo.Added.{Entry, sizes_of, bytes_of, values_of, IsHash, HoldsEntry}
use deltafs.Plfsio.Cuckoo.Staged.{IsBlock, KeptEntry}
use deltafs.Plfsio.Cuckoo.More.{all_taken, HasAll, fill-HasAll, next_table, one_more, unfilled_next}

module _ (d : Doubles) (c : Common) (o : CuckooOptions d) (k v : ℕ) where
  abbrev pub SomeHolds : List Table → Entry → Type 0
  SomeHolds [] e = ⊥
  SomeHolds (t ∷ ts) e = HoldsEntry d c o k v t e ⊎ SomeHolds ts e

  -- At most two tables, which have what the block kept.
  pub record IsBuilt (b : Block) (more : List Entry) (r : Built) : Type 0 where
    pub tables : List Table
    pub is_built : r ≡ built tables
    pub few : length tables < u32_mod
    pub some : 0 < length tables
    pub well_formed : All (λ t. (m : ℕ) × IsTable k v m t) tables
    pub has : (e : Entry) → KeptEntry d c o k v b more e → SomeHolds tables e

  -- What a function of the keys that are set aside gives.
  same_three :
      {A : Type 0} (f : List ℕ → List ℕ → Bytes → A) (b : Block) (more : List Entry)
      → IsBlock d c o k v b more
      → f b.key_sizes b.values b.keys ≡ f (sizes_of more) (values_of v more) (bytes_of more)
  same_three f b more w =
      ap (λ ns. f ns b.values b.keys) w.sizes
      ∙ (ap (λ vs. f (sizes_of more) vs b.keys) w.contents
          ∙ ap (f (sizes_of more) (values_of v more)) w.bytes)

  build_done :
      (fuel : ℕ) (vs : List ℕ) (start : Bytes) (rnd : ℕ) (ts : List Table)
      → build_more d c o k v fuel [] vs start rnd ts ≡ built ts
  unfolding build_more
  build_done zero vs start rnd ts = refl
  build_done (suc fuel) vs start rnd ts = refl

  module _ (hash : IsHash c) (some : 0 < k) (narrow : k ≤ 32) (rate : IsRate d d.high_rate) where
    -- The round that builds one more table.
    one_round :
        (b : Block) (more : List Entry) (fuel : ℕ) (t : Table) (f : Filled)
        → IsBlock d c o k v b more
        → all_taken f ≡ true
        → HasAll d c o k v t more f
        → IsBuilt b more (elim f as (λ x. Built) [
          | stray_read ↦ strayed
          | filled sizes' values' start' t' rnd' ↦
              build_more d c o k v fuel sizes' values' start' rnd' (t' ∷ b.rep ∷ [])
        ])
    one_round b more fuel t stray_read w e h = elim h [ ]
    one_round b more fuel t (filled (size ∷ sizes) values start r rnd) w e h = elim h [ ]
    one_round b more fuel t (filled [] values start r rnd) w e h = record {
      tables = r ∷ b.rep ∷ [];
      is_built = build_done fuel values start rnd (r ∷ b.rep ∷ []);
      few = omega arith;
      some = omega arith;
      well_formed = (h.0, ((w.exponent, w.table), tt));
      has = λ g kept. elim kept [ inl main ↦ inr (inl main) | inr aside ↦ inl (h.1 g (inr aside)) ];
    }

    build_more-IsBuilt :
        (b : Block) (more : List Entry)
        → IsBlock d c o k v b more
        → all_taken (
            fill d c o k v
              (sizes_of more)
              (values_of v more)
              (bytes_of more)
              (next_table d c o k v (length (sizes_of more)))
              b.rnd)
          ≡ true
        → IsBuilt b more (
            build_more d c o k v
              (length (sizes_of more))
              (sizes_of more)
              (values_of v more)
              (bytes_of more)
              b.rnd
              (b.rep ∷ []))
    unfolding build_more
    build_more-IsBuilt b [] w e = record {
      tables = b.rep ∷ [];
      is_built = refl;
      few = omega arith;
      some = omega arith;
      well_formed = ((w.exponent, w.table), tt);
      has = λ g kept. elim kept [ inl main ↦ inl main | inr none ↦ elim none [ ] ];
    }
    build_more-IsBuilt b ((key, value) ∷ es) w e =
        let more = (key, value) ∷ es in
        let n = length (sizes_of more) in
        let (m, fresh) = resize-IsTable d k v d.high_rate n rate _ in
        let has =
          fill-HasAll d c o k v hash some narrow more (next_table d c o k v n) b.rnd m w.lengths
            fresh (unfilled_next d c o k v n) e in
        one_round b more (length (sizes_of es)) (next_table d c o k v n) _ w e has

    pub all_tables-IsBuilt :
        (b : Block) (more : List Entry)
        → IsBlock d c o k v b more
        → one_more d c o k v b ≡ true
        → IsBuilt b more (all_tables d c o k v b)
    unfolding all_tables one_more
    all_tables-IsBuilt b more w e =
        let tables : List ℕ → List ℕ → Bytes → Built =
          λ ns vs bs. build_more d c o k v (length ns) ns vs bs b.rnd (b.rep ∷ []) in
        let taken : List ℕ → List ℕ → Bytes → Bool = λ ns vs bs.
          all_taken (fill d c o k v ns vs bs (next_table d c o k v (length ns)) b.rnd) in
        let same = same_three tables b more w in
        let all = sym (same_three taken b more w) ∙ e in
        subst (IsBuilt b more) (sym same) (build_more-IsBuilt b more w all)
