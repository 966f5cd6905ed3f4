-- ===== src/Plfsio/Cuckoo/Overflow.antt =====
-- When MaybeBuildMoreTables of src/libdeltafs/plfsio/v1/cuckoo.cc ends, and when it reads out of
-- range.
use deltafs.Prelude.{
  ℕ, ◌+◌, ◌%◌, ◌<◌, ◌≤◌, ◌≡◌, ◌≢◌, refl, Bool, true, false, List, [], ◌∷◌, ◌++◌, Bytes, length,
  length-append, All, if◌then◌else◌, arith, inl, ◌∙◌, sym, ap,
}
use mathlib.Core.Bool.{true≢false}
use native.Mathlib.Nat.{mod-eq_of_lt}
use deltafs.Plfsio.Cuckoo.Table.{Doubles, u32_mod}
use deltafs.Plfsio.Cuckoo.Block.{
  CuckooOptions, Common, Block, strayed, out_of_fuel, fill, build_more, all_tables, add_more,
  add_key, add_keys, reset,
}
use deltafs.Plfsio.Cuckoo.Fresh.{IsRate}
use deltafs.Plfsio.Cuckoo.Added.{Entry, sizes_of, bytes_of, IsHash}
use deltafs.Plfsio.Cuckoo.Staged.{IsShort, add_keys-IsLater, reset-IsBlock}
use deltafs.Plfsio.Cuckoo.More.{all_taken, next_table, one_more}
use deltafs.Plfsio.Cuckoo.Stray.{
  IsPositive, sum, ran_out, completes, only_strays, fill-IsMissing, build_ends, missing_strays,
  build_strays,
}

All-append : (ns ms : List ℕ) → All IsPositive ns → All IsPositive ms → All IsPositive (ns ++ ms)
All-append [] ms p q = q
All-append (n ∷ ns) ms p q = (p.0, All-append ns ms p.1 q)

sum-sizes_of : (es : List Entry) → All IsShort es → length (bytes_of es) + 0 ≡ sum (sizes_of es)
unfolding sum
sum-sizes_of [] p = refl
sum-sizes_of ((key, value) ∷ es) (short, p) =
    omega (arith, sum-sizes_of es p, length-append key (bytes_of es), mod-eq_of_lt short)

-- A key that is not empty.
abbrev pub IsSome : Entry → Type 0
IsSome e = 0 < length e.0

module _ (d : Doubles) (c : Common) (o : CuckooOptions d) (k v : ℕ) where
  -- Building further tables ends, in at most as many rounds as there are keys set aside, if the
  -- options allow one move or more: each table takes one key at least. The count of the model is
  -- the number of these keys.
  pub all_tables_ends : (b : Block) → 0 < o.cuckoo_max_moves → all_tables d c o k v b ≢ out_of_fuel
  unfolding all_tables
  all_tables_ends b moves e = true≢false (
      sym (ap ran_out e)
      ∙ build_ends d c o k v (length b.key_sizes) b.key_sizes b.values b.keys b.rnd (b.rep ∷ [])
          moves (omega arith))

  chosen :
      (full : Bool) (key : Bytes) (value : ℕ) (b b' : Block)
      → All IsPositive b.key_sizes
      → 0 < length key
      → length key < u32_mod
      → b'.key_sizes ≡ b.key_sizes
      → All IsPositive (if full then add_more d c o k v key value b else b').key_sizes
  unfolding add_more
  chosen true key value b b' p some short e =
      All-append b.key_sizes (length key % u32_mod ∷ []) p (omega (arith, mod-eq_of_lt short), tt)
  chosen false key value b b' p some short e = rw e p

  add_keys-IsPositive :
      (es : List Entry) (b : Block)
      → All IsShort es
      → All IsSome es
      → All IsPositive b.key_sizes
      → All IsPositive (add_keys d c o k v es b).key_sizes
  unfolding add_keys
  add_keys-IsPositive [] b short some p = p
  add_keys-IsPositive ((key, value) ∷ es) b (here, short) (one, some) p =
      add_keys-IsPositive es (add_key d c o k v key value b) short some
        (unfold add_key in chosen b.rep.full key value b _ p one here refl)

  -- Building from keys whose bytes are all there, if one table does not take them.
  first_strays :
      (ns vs : List ℕ) (bs : Bytes) (b : Block)
      → All IsPositive ns
      → length bs + 0 ≡ sum ns
      → all_taken (fill d c o k v ns vs bs (next_table d c o k v (length ns)) b.rnd) ≡ false
      → completes (build_more d c o k v (length ns) ns vs bs b.rnd (b.rep ∷ [])) ≡ false
  unfolding build_more
  first_strays [] vs bs b p e h = absurd (true≢false (unfold fill all_taken in h))
  first_strays (n ∷ ns) vs bs b p e h =
      let t = next_table d c o k v (length (n ∷ ns)) in
      missing_strays d c o k v (length ns) (b.rep ∷ []) 0 (fill d c o k v (n ∷ ns) vs bs t b.rnd)
        (inl h) (fill-IsMissing d c o k v (n ∷ ns) vs bs t b.rnd 0 p e)
        (λ ms ws cs r t' q few.
          build_strays d c o k v (length ns) ms ws cs r (t' ∷ b.rep ∷ []) q few)

  module _ (hash : IsHash c) (some : 0 < k) (narrow : k ≤ 32) (rate : IsRate d o.cuckoo_frac) where
    -- Keys, none of them empty, are added to a block that was reset, and the first table built for
    -- those that were set aside is filled before it has them all. Then building the tables reads
    -- past the end of these keys' bytes, whatever the keys and the options are, if these allow one
    -- move or more.
    pub all_tables_stray :
        (es : List Entry) (num_keys : ℕ) (b : Block)
        → 0 < o.cuckoo_max_moves
        → All IsShort es
        → All IsSome es
        → let b' = add_keys d c o k v es (reset d c o num_keys b) in
          one_more d c o k v b' ≡ false → all_tables d c o k v b' ≡ strayed
    unfolding all_tables one_more
    all_tables_stray es num_keys b moves short nonempty h =
        let b' = add_keys d c o k v es (reset d c o num_keys b) in
        let r =
          add_keys-IsLater d c o k v hash some narrow es (reset d c o num_keys b) []
            (reset-IsBlock d c o k v hash some narrow num_keys b rate) short in
        let w = r.block in
        let whole : length b'.keys + 0 ≡ sum b'.key_sizes =
          ap (λ bs. length bs + 0) w.bytes
          ∙ (sum-sizes_of r.aside w.lengths ∙ sym (ap sum w.sizes)) in
        let p =
          add_keys-IsPositive es (reset d c o num_keys b) short nonempty (unfold reset in tt) in
        only_strays _
          (build_ends d c o k v (length b'.key_sizes) b'.key_sizes b'.values b'.keys b'.rnd
            (b'.rep ∷ []) moves (omega arith))
          (first_strays b'.key_sizes b'.values b'.keys b' p whole h)
