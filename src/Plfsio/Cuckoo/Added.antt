-- ===== src/Plfsio/Cuckoo/Added.antt =====
-- Keys that are added to a cuckoo filter of src/libdeltafs/plfsio/v1/cuckoo.cc stand in its main
-- table or are set aside with their values.
use mathlib.Core.List.{append_assoc}
use mathlib.Core.Path.{subst}
use native.Mathlib.Nat.{div-lt_iff_lt-mul, pow-le-pow_right}
use deltafs.Prelude.{
  ℕ, zero, suc, ◌+◌, ◌*◌, ◌%◌, ◌-◌, ◌^◌, ◌<◌, ◌≤◌, ◌≡◌, refl, false, List, [], ◌∷◌, ◌++◌, Bytes,
  length, arith, ◌⊎◌, inl, inr, ◌∙◌, sym, ap,
}
use deltafs.Plfsio.Cuckoo.Bits.{pow_pos, masked, masked_lt, cuckoo_fingerprint}
use deltafs.Plfsio.Cuckoo.Power.{pow_add}
use deltafs.Plfsio.Cuckoo.Table.{Table, Doubles, u32_mod}
use deltafs.Plfsio.Cuckoo.Kept.{IsTable, Holds}
use deltafs.Plfsio.Cuckoo.Moves.{add_to-Holds}
use deltafs.Plfsio.Cuckoo.Block.{CuckooOptions, Common, add_hashed}

abbrev pub Entry : Type 0
Entry = Bytes × ℕ

-- What the block remembers of the keys that it sets aside.
abbrev pub sizes_of : List Entry → List ℕ
sizes_of [] = []
sizes_of ((key, value) ∷ es) = length key % u32_mod ∷ sizes_of es

abbrev pub bytes_of : List Entry → Bytes
bytes_of [] = []
bytes_of ((key, value) ∷ es) = key ++ bytes_of es

abbrev pub values_of : ℕ → List Entry → List ℕ
values_of zero es = []
values_of (suc v) [] = []
values_of (suc v) ((key, value) ∷ es) = value ∷ values_of (suc v) es

pub sizes_of-append : (es fs : List Entry) → sizes_of (es ++ fs) ≡ sizes_of es ++ sizes_of fs
sizes_of-append [] fs = refl
sizes_of-append ((key, value) ∷ es) fs =
    ap (λ ns. length key % u32_mod ∷ ns) (sizes_of-append es fs)

pub bytes_of-append : (es fs : List Entry) → bytes_of (es ++ fs) ≡ bytes_of es ++ bytes_of fs
bytes_of-append [] fs = refl
bytes_of-append ((key, value) ∷ es) fs =
    ap (λ bs. key ++ bs) (bytes_of-append es fs)
    ∙ sym (append_assoc key (bytes_of es) (bytes_of fs))

pub values_of-append :
    (v : ℕ) (es fs : List Entry) → values_of v (es ++ fs) ≡ values_of v es ++ values_of v fs
values_of-append zero es fs = refl
values_of-append (suc v) [] fs = refl
values_of-append (suc v) ((key, value) ∷ es) fs =
    ap (λ ns. value ∷ ns) (values_of-append (suc v) es fs)

abbrev pub AmongEntries : Entry → List Entry → Type 0
AmongEntries e [] = ⊥
AmongEntries e (f ∷ fs) = (f ≡ e) ⊎ AmongEntries e fs

pub AmongEntries-append :
    (e : Entry) (es fs : List Entry) → AmongEntries e es → AmongEntries e (es ++ fs)
AmongEntries-append e [] fs h = elim h [ ]
AmongEntries-append e (f ∷ es) fs (inl h) = inl h
AmongEntries-append e (f ∷ es) fs (inr h) = inr (AmongEntries-append e es fs h)

pub AmongEntries-append_last : (e : Entry) (es : List Entry) → AmongEntries e (es ++ e ∷ [])
AmongEntries-append_last e [] = inl refl
AmongEntries-append_last e (f ∷ es) = inr (AmongEntries-append_last e es)

not_zero_bounds :
    (n k : ℕ)
    → 1 < 2 ^ k
    → n < 2 ^ k
    → let m = elim n as (λ x. ℕ) [ zero ↦ 1 | suc n ↦ suc n ] in (0 < m) × (m < 2 ^ k)
not_zero_bounds zero k one h = (omega arith, one)
not_zero_bounds (suc n) k one h = (omega arith, h)

full_width : (k : ℕ) → k ≤ 32 → 64 ≡ k + (64 - k)
full_width k h = omega arith

pub fingerprint_bounds :
    (ha k : ℕ)
    → ha < 2 ^ 64
    → 0 < k
    → k ≤ 32
    → (0 < cuckoo_fingerprint ha k) × (cuckoo_fingerprint ha k < 2 ^ k)
unfolding cuckoo_fingerprint
fingerprint_bounds ha k h some narrow =
    let split : 2 ^ 64 ≡ 2 ^ k * 2 ^ (64 - k) =
      ap (λ n. 2 ^ n) (full_width k narrow) ∙ pow_add k (64 - k) in
    let top =
      (div-lt_iff_lt-mul {k = 2 ^ (64 - k)} {x = ha} {y = 2 ^ k} (pow_pos (64 - k))).1
        (rw (← split) h) in
    let two = pow-le-pow_right {n = 2} (omega arith) some in
    not_zero_bounds _ k (omega arith) (omega arith)

-- The hash is a uint64_t.
abbrev pub IsHash : Common → Type 0
IsHash c = (key : Bytes) → c.xxhash key < 2 ^ 64

module _ (d : Doubles) (c : Common) (o : CuckooOptions d) (k v : ℕ) where
  -- What is in a table, for a key.
  abbrev pub HoldsEntry : Table → Entry → Type 0
  HoldsEntry t (key, value) =
      let ha = c.xxhash key in Holds k v t (masked ha t.num_buckets) (cuckoo_fingerprint ha k) value

  module _ (hash : IsHash c) (some : 0 < k) (narrow : k ≤ 32) where
    pub record IsAdded (t : Table) (e : Entry) (r : Table) : Type 0 where
      pub exponent : ℕ
      pub table : IsTable k v exponent r
      pub added : HoldsEntry r e
      pub kept : (f : Entry) → HoldsEntry t f → HoldsEntry r f

    -- A table that is not full takes an entry and loses none.
    pub add_hashed-IsAdded :
        (key : Bytes) (value : ℕ) (t : Table) (rnd m : ℕ)
        → IsTable k v m t
        → t.full ≡ false
        → IsAdded t (key, value) (add_hashed d c o k v key value t rnd).0
    unfolding add_hashed
    add_hashed-IsAdded key value t rnd m w unfilled =
        let ha = c.xxhash key in
        let f = cuckoo_fingerprint ha k in
        let fp = fingerprint_bounds ha k (hash key) some narrow in
        let (table, added, kept) =
          add_to-Holds k v c.next_random narrow m o.cuckoo_max_moves ha f value t rnd w unfilled
            fp.0 fp.1 in
        record {
          exponent = m;
          table = table;
          added = rw table.buckets added;
          kept = λ (other, content) h.
              let hb = c.xxhash other in
              let gp = fingerprint_bounds hb k (hash other) some narrow in
              rw table.buckets (
                kept (masked hb (2 ^ m)) (cuckoo_fingerprint hb k) content (masked_lt hb m) gp.0 (
                  subst (λ n. Holds k v t (masked hb n) (cuckoo_fingerprint hb k) content) w.buckets
                    h));
        }
