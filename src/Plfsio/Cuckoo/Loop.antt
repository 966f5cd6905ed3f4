-- ===== src/Plfsio/Cuckoo/Loop.antt =====
-- The search through all tables of a cuckoo filter, CuckooKeyTester of
-- src/libdeltafs/plfsio/v1/cuckoo.cc, finds what one of them has.
use mathlib.Core.List.{append_assoc}
use mathlib.Core.Path.{subst}
use mathlib.Core.Bool.{true≢false}
use native.Mathlib.Nat.{pow-le-pow_right}
use deltafs.Prelude.{
  ℕ, suc, ◌+◌, ◌-◌, ◌*◌, ◌%◌, ◌^◌, ◌<◌, ◌≤◌, ◌≡◌, refl, Bool, true, false, ◌&&◌, ◌||◌, not, ◌==◌,
  ltb, List, [], ◌∷◌, ◌++◌, Bytes, All, length, length-append, take, drop, arith, ◌⊎◌, inl, inr,
  Bool-cases, ◌∙◌, sym, ap,
}
use deltafs.Plfsio.Cuckoo.Bits.{pow_pos, masked}
use deltafs.Plfsio.Cuckoo.Table.{Table, u32_mod}
use deltafs.Plfsio.Cuckoo.Kept.{IsTable, Holds}
use deltafs.Plfsio.Cuckoo.Filter.{
  Layout, put_space, put_header, put_table, put_tables, fetch, test_tables,
}
use deltafs.Plfsio.Cuckoo.Bytes.{
  IsLayout, drop-append, take-append, length-put_space, numbers, length-numbers,
}
use deltafs.Plfsio.Cuckoo.Values.{HasValue}
use deltafs.Plfsio.Cuckoo.Search.{fetch-Holds, fetch_keeps}

pub and_false : (b : Bool) → (b && false) ≡ false
and_false true = refl
and_false false = refl

module _ (y : Layout) (l : IsLayout y) (k v : ℕ) (narrow : k ≤ 32) (short : v ≤ 32) where
  abbrev pub AreTables : List Table → Type 0
  AreTables ts = All (λ t. (m : ℕ) × IsTable k v m t) ts

  table_size : ℕ → ℕ
  table_size n = n * y.bucket_size k v + 16

  length-put_table :
      (t : Table) (m : ℕ)
      → IsTable k v m t
      → length (put_table y k v t) ≡ t.num_buckets * y.bucket_size k v + 16
  unfolding put_table put_header numbers
  length-put_table t m w =
      let front = put_space y k v t.space in
      let n = t.num_buckets % u32_mod in
      let i = t.victim_index % u32_mod in
      let x = t.victim_data % u32_mod in
      let g = t.victim_fp % u32_mod in
      let same : length t.space ≡ t.num_buckets = w.size ∙ sym w.buckets in
      let back = length-numbers y l k v front n i x g in
      rw
        (
          length-append front (numbers y l k v front n i x g),
          length-put_space y l k v t.space,
          same,
        )
        (omega (arith, back))

  below_32 : (n : ℕ) → n < 32 → n ≤ 31
  below_32 n h = omega arith

  buckets_lt : (t : Table) (m : ℕ) → IsTable k v m t → t.num_buckets < u32_mod
  buckets_lt t m w =
      let small = pow-le-pow_right {n = 2} (omega arith) (below_32 m w.small) in
      rw w.buckets (omega arith)

  -- The last table of some bytes, with what follows them.
  module _ (before suffix : Bytes) (t : Table) (m : ℕ) (w : IsTable k v m t) where
    abbrev whole : Bytes
    whole = (before ++ put_table y k v t) ++ suffix

    abbrev end : ℕ
    end = length (before ++ put_table y k v t)

    end_eq : end ≡ length before + (t.num_buckets * y.bucket_size k v + 16)
    end_eq = omega (arith, length-append before (put_table y k v t), length-put_table t m w)

    num_buckets_read : y.decode_fixed32 (drop (end - 16) whole) ≡ t.num_buckets
    unfolding put_table put_header numbers
    num_buckets_read =
        let front = put_space y k v t.space in
        let n = t.num_buckets % u32_mod in
        let i = t.victim_index % u32_mod in
        let x = t.victim_data % u32_mod in
        let g = t.victim_fp % u32_mod in
        let back = numbers y l k v front n i x g in
        let rest = y.put_fixed32 i ++ (y.put_fixed32 x ++ y.put_fixed32 g) in
        let place : end - 16 ≡ length (before ++ front) = omega (
          arith,
          length-append before front,
          length-append front back,
          length-append before (front ++ back),
          length-numbers y l k v front n i x g,
        ) in
        let number : n ≡ t.num_buckets = omega (arith, buckets_lt t m w) in
        let parts : whole ≡ (before ++ front) ++ (back ++ suffix) =
          ap (λ bs. bs ++ suffix) (sym (append_assoc before front back))
          ∙ append_assoc (before ++ front) back suffix in
        ap (λ bs. y.decode_fixed32 (drop (end - 16) bs)) parts
        ∙ (ap (λ j. y.decode_fixed32 (drop j ((before ++ front) ++ (back ++ suffix)))) place
            ∙ (ap y.decode_fixed32 (
                  drop-append _ (before ++ front) (back ++ suffix) refl
                  ∙ append_assoc (y.put_fixed32 n) rest suffix)
                ∙ (l.fixed32 n (rest ++ suffix) (omega arith) ∙ number)))

    table_read :
        let size = t.num_buckets * y.bucket_size k v + 16 in
        take size (drop (end - size) whole) ≡ put_table y k v t
    table_read =
        let size = t.num_buckets * y.bucket_size k v + 16 in
        let place : end - size ≡ length before = omega (arith, end_eq) in
        rw
          (
            place,
            append_assoc before (put_table y k v t) suffix,
            drop-append (length before) before (put_table y k v t ++ suffix) refl,
          )
          (take-append size (put_table y k v t) suffix (length-put_table t m w))

    guard_passed :
        let size = t.num_buckets * y.bucket_size k v + 16 in
        (ltb end 16 || (t.num_buckets == 0) || ltb end size) ≡ false
    guard_passed =
        let some = pow_pos m in let long = end_eq in let buckets = w.buckets in ground arith

    module _ (n ha f : ℕ) (all : Bool) (values : List ℕ) where
      -- The body of the loop, by what it reads.
      abbrev round : ℕ → ℕ → Bytes → Bool → Bool × List ℕ
      round rest buckets table ends =
          let (found, values') = fetch y k v ha f buckets table all values in
          elim ends [
            | true ↦ (true, values)
            | false ↦ elim (found && not all) [
              | true ↦ (true, values')
              | false ↦
                  test_tables y k v n rest (buckets * y.bucket_size k v + 16) ha f whole all values'
            ]
          ]

      test_tables-round :
          (size remaining : ℕ)
          → remaining - size ≡ end
          → test_tables y k v (suc n) remaining size ha f whole all values
            ≡ round end t.num_buckets (put_table y k v t) false
      unfolding test_tables
      test_tables-round size remaining e =
          let buckets : ℕ → ℕ = λ r. y.decode_fixed32 (drop (r - 16) whole) in
          let bytes : ℕ → ℕ = λ b. b * y.bucket_size k v + 16 in
          let table : ℕ → ℕ → Bytes = λ r b. take (bytes b) (drop (r - bytes b) whole) in
          let ends : ℕ → ℕ → Bool = λ r b. ltb r 16 || (b == 0) || ltb r (bytes b) in
          ap (λ r. round r (buckets r) (table r (buckets r)) (ends r (buckets r))) e
          ∙ (ap (λ b. round end b (table end b) (ends end b)) num_buckets_read
              ∙ (ap (λ bs. round end t.num_buckets bs (ends end t.num_buckets)) table_read
                  ∙ ap (round end t.num_buckets (put_table y k v t)) guard_passed))

  module _ (ha f value : ℕ) (hf : f < 2 ^ k) where
    abbrev pub HasKey : Table → Type 0
    HasKey t = Holds k v t (masked ha t.num_buckets) f value

    abbrev pub SomeHas : List Table → Type 0
    SomeHas [] = ⊥
    SomeHas (t ∷ ts) = HasKey t ⊎ SomeHas ts

    found_by :
        (t : Table)
        → ((m : ℕ) × IsTable k v m t)
        → HasKey t
        → (values : List ℕ)
        → ((fetch y k v ha f t.num_buckets (put_table y k v t) false values).0 ≡ true)
          × HasValue k v value (fetch y k v ha f t.num_buckets (put_table y k v t) true values).1
    found_by t (m, w) h values =
        fetch-Holds y l k v narrow short t m w ha f value hf
          (subst (λ n. Holds k v t (masked ha n) f value) w.buckets h) values

    -- A fingerprint that one of the tables has is found.
    pub test_tables-SomeHas :
        (ts : List Table) (suffix : Bytes) (size remaining : ℕ) (values : List ℕ)
        → AreTables ts
        → SomeHas ts
        → remaining ≡ length (put_tables y k v ts) + size
        → (test_tables y k v
            (length ts)
            remaining
            size
            ha
            f
            (put_tables y k v ts ++ suffix)
            false
            values).0
          ≡ true
    unfolding put_tables
    test_tables-SomeHas [] suffix size remaining values are some e = elim some [ ]
    test_tables-SomeHas (t ∷ ts) suffix size remaining values (w, are) some e =
        let before = put_tables y k v ts in
        let rest : remaining - size ≡ length (before ++ put_table y k v t) = omega arith in
        let bytes = t.num_buckets * y.bucket_size k v + 16 in
        let table = put_table y k v t in
        rw
          (test_tables-round before suffix t w.0 w.1 (length ts) ha f false values size remaining
            rest)
          (elim (Bool-cases (fetch y k v ha f t.num_buckets table false values).0) [
            | inl found ↦ rw (round, found) refl
            | inr missed ↦
                rw (round, missed)
                  (elim some [
                    | inl h ↦ absurd (true≢false (sym (found_by t w h values).0 ∙ missed))
                    | inr others ↦
                        ap
                          (λ bs.
                            (test_tables y k v (length ts) (length (before ++ table)) bytes ha f bs
                              false (fetch y k v ha f t.num_buckets table false values).1).0)
                          (append_assoc before table suffix)
                        ∙ test_tables-SomeHas ts (table ++ suffix) bytes (length (before ++ table))
                            _ are others (end_eq before suffix t w.0 w.1)
                  ])
          ])

    -- With the values asked for, the result is a success, and has the value of a table, or had it.
    pub test_tables-HasValue :
        (ts : List Table) (suffix : Bytes) (size remaining : ℕ) (values : List ℕ)
        → AreTables ts
        → SomeHas ts ⊎ HasValue k v value values
        → remaining ≡ length (put_tables y k v ts) + size
        → HasValue k v value
            (test_tables y k v
              (length ts)
              remaining
              size
              ha
              f
              (put_tables y k v ts ++ suffix)
              true
              values).1
    unfolding put_tables
    test_tables-HasValue [] suffix size remaining values are (inl some) e = elim some [ ]
    test_tables-HasValue [] suffix size remaining values are (inr had) e = unfold test_tables in had
    test_tables-HasValue (t ∷ ts) suffix size remaining values (w, are) some e =
        let before = put_tables y k v ts in
        let rest : remaining - size ≡ length (before ++ put_table y k v t) = omega arith in
        let bytes = t.num_buckets * y.bucket_size k v + 16 in
        let table = put_table y k v t in
        let now = fetch y k v ha f t.num_buckets table true values in
        let one : SomeHas ts ⊎ HasValue k v value now.1 = elim some [
          | inl (inl h) ↦ inr (found_by t w h values).1
          | inl (inr others) ↦ inl others
          | inr had ↦
              inr (fetch_keeps y l k v narrow short ha f t.num_buckets value table values had)
        ] in
        rw
          (
            test_tables-round before suffix t w.0 w.1 (length ts) ha f true values size remaining
                rest,
            round,
            and_false now.0,
            append_assoc before table suffix,
          )
          (test_tables-HasValue ts (table ++ suffix) bytes (length (before ++ table)) now.1 are one
            (end_eq before suffix t w.0 w.1))
