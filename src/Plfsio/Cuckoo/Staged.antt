-- ===== src/Plfsio/Cuckoo/Staged.antt =====
-- A block of src/libdeltafs/plfsio/v1/cuckoo.cc while keys are added: a well-formed main table and
-- the keys that are set aside.
use mathlib.Core.List.{append-nil}
use deltafs.Prelude.{
  ℕ, zero, suc, ◌<◌, ◌≤◌, ◌≡◌, refl, Bool, true, false, ◌==◌, List, [], ◌∷◌, ◌++◌, Bytes, length,
  All, if◌then◌else◌, arith, ◌⊎◌, inl, inr,
}
use deltafs.Plfsio.Cuckoo.Table.{Doubles, u32_mod}
use deltafs.Plfsio.Cuckoo.Kept.{IsTable}
use deltafs.Plfsio.Cuckoo.Block.{
  CuckooOptions, Common, Block, add_hashed, add_more, add_key, add_keys, reset,
}
use deltafs.Plfsio.Cuckoo.Fresh.{IsRate, reset_table-IsTable}
use deltafs.Plfsio.Cuckoo.Added.{
  Entry, sizes_of, bytes_of, values_of, sizes_of-append, bytes_of-append, values_of-append,
  AmongEntries, AmongEntries-append, AmongEntries-append_last, IsHash, HoldsEntry,
  add_hashed-IsAdded,
}

abbrev pub IsShort : Entry → Type 0
IsShort e = length e.0 < u32_mod

All-append : (es fs : List Entry) → All IsShort es → All IsShort fs → All IsShort (es ++ fs)
All-append [] fs p q = q
All-append (e ∷ es) fs p q = (p.0, All-append es fs p.1 q)

no_values : (v : ℕ) → [] ≡ values_of v []
no_values zero = refl
no_values (suc v) = refl

added_values :
    (v : ℕ) (vs : List ℕ) (more : List Entry) (key : Bytes) (value : ℕ)
    → vs ≡ values_of v more
    → (if v == 0 then vs else vs ++ value ∷ []) ≡ values_of v (more ++ (key, value) ∷ [])
added_values zero vs more key value e = e
added_values (suc v) vs more key value e =
    let used : (suc v == 0) ≡ false = ground arith in
    rw (values_of-append (suc v) more ((key, value) ∷ []), e, used) refl

module _ (d : Doubles) (c : Common) (o : CuckooOptions d) (k v : ℕ) where
  pub record IsBlock (b : Block) (more : List Entry) : Type 0 where
    pub exponent : ℕ
    pub table : IsTable k v exponent b.rep
    pub sizes : b.key_sizes ≡ sizes_of more
    pub contents : b.values ≡ values_of v more
    pub bytes : b.keys ≡ bytes_of more
    pub lengths : All IsShort more

  abbrev pub KeptEntry : Block → List Entry → Entry → Type 0
  KeptEntry b more e = HoldsEntry d c o k v b.rep e ⊎ AmongEntries e more

  -- The block has what it had before, and the entry.
  pub record IsMore (b : Block) (more : List Entry) (e : Entry) (b' : Block) : Type 0 where
    pub aside : List Entry
    pub block : IsBlock b' aside
    pub added : KeptEntry b' aside e
    pub kept : (f : Entry) → KeptEntry b more f → KeptEntry b' aside f

  module _ (hash : IsHash c) (some : 0 < k) (narrow : k ≤ 32) where
    add_more-IsMore :
        (key : Bytes) (value : ℕ) (b : Block) (more : List Entry)
        → IsBlock b more
        → length key < u32_mod
        → IsMore b more (key, value) (add_more d c o k v key value b)
    unfolding add_more
    add_more-IsMore key value b more w short = record {
      aside = more ++ (key, value) ∷ [];
      block = record {
        exponent = w.exponent;
        table = w.table;
        sizes = rw (sizes_of-append more ((key, value) ∷ []), w.sizes) refl;
        contents = added_values v b.values more key value w.contents;
        bytes = rw (bytes_of-append more ((key, value) ∷ []), w.bytes, append-nil key) refl;
        lengths = All-append more ((key, value) ∷ []) w.lengths (short, tt);
      };
      added = inr (AmongEntries-append_last (key, value) more);
      kept = λ f h. elim h [
        | inl stored ↦ inl stored
        | inr aside ↦ inr (AmongEntries-append f more ((key, value) ∷ []) aside)
      ];
    }

    -- Both ways of AddKey, by whether the main table is full.
    either-IsMore :
        (key : Bytes) (value : ℕ) (b : Block) (more : List Entry) (full : Bool)
        → IsBlock b more
        → length key < u32_mod
        → b.rep.full ≡ full
        → let (t, rnd') = add_hashed d c o k v key value b.rep b.rnd in
          IsMore b more
            (key, value)
            (if full then add_more d c o k v key value b else record b { rep = t; rnd = rnd' })
    either-IsMore key value b more true w short e = add_more-IsMore key value b more w short
    either-IsMore key value b more false w short e =
        let g =
          add_hashed-IsAdded d c o k v hash some narrow key value b.rep b.rnd w.exponent w.table
            e in
        record {
          aside = more;
          block = record {
            exponent = g.exponent;
            table = g.table;
            sizes = w.sizes;
            contents = w.contents;
            bytes = w.bytes;
            lengths = w.lengths;
          };
          added = inl g.added;
          kept = λ f h. elim h [ inl stored ↦ inl (g.kept f stored) | inr aside ↦ inr aside ];
        }

    add_key-IsMore :
        (key : Bytes) (value : ℕ) (b : Block) (more : List Entry)
        → IsBlock b more
        → length key < u32_mod
        → IsMore b more (key, value) (add_key d c o k v key value b)
    unfolding add_key
    add_key-IsMore key value b more w short = either-IsMore key value b more b.rep.full w short refl

    -- What a block is after further keys.
    pub record IsLater (b : Block) (more : List Entry) (b' : Block) : Type 0 where
      pub aside : List Entry
      pub block : IsBlock b' aside
      pub kept : (f : Entry) → KeptEntry b more f → KeptEntry b' aside f

    pub add_keys-IsLater :
        (es : List Entry) (b : Block) (more : List Entry)
        → IsBlock b more
        → All IsShort es
        → IsLater b more (add_keys d c o k v es b)
    unfolding add_keys
    add_keys-IsLater [] b more w short = record { aside = more; block = w; kept = λ f h. h }
    add_keys-IsLater ((key, value) ∷ es) b more w (here, short) =
        let g = add_key-IsMore key value b more w here in
        let r = add_keys-IsLater es (add_key d c o k v key value b) g.aside g.block short in
        record { aside = r.aside; block = r.block; kept = λ f h. r.kept f (g.kept f h) }

    -- Any entry that is added is kept.
    pub add_keys-IsMore :
        (before after : List Entry) (e : Entry) (b : Block) (more : List Entry)
        → IsBlock b more
        → All IsShort before
        → IsShort e
        → All IsShort after
        → IsMore b more e (add_keys d c o k v (before ++ e ∷ after) b)
    unfolding add_keys
    add_keys-IsMore [] after (key, value) b more w p here q =
        let g = add_key-IsMore key value b more w here in
        let r = add_keys-IsLater after (add_key d c o k v key value b) g.aside g.block q in
        record {
          aside = r.aside;
          block = r.block;
          added = r.kept (key, value) g.added;
          kept = λ f h. r.kept f (g.kept f h);
        }
    add_keys-IsMore ((key, value) ∷ before) after e b more w (short, p) here q =
        let g = add_key-IsMore key value b more w short in
        let r =
          add_keys-IsMore before after e (add_key d c o k v key value b) g.aside g.block p here q in
        record {
          aside = r.aside;
          block = r.block;
          added = r.added;
          kept = λ f h. r.kept f (g.kept f h);
        }

    pub reset-IsBlock :
        (num_keys : ℕ) (b : Block) → IsRate d o.cuckoo_frac → IsBlock (reset d c o num_keys b) []
    unfolding reset
    reset-IsBlock num_keys b rate =
        let (m, w) = reset_table-IsTable d k v o.cuckoo_frac num_keys rate in
        record {
          exponent = m;
          table = w;
          sizes = refl;
          contents = no_values v;
          bytes = refl;
          lengths = tt;
        }
