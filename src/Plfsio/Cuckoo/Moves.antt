-- ===== src/Plfsio/Cuckoo/Moves.antt =====
-- CuckooBlock::AddTo of src/libdeltafs/plfsio/v1/cuckoo.cc, move by move: no key is lost, and the
-- new one is there.
use mathlib.Core.Path.{subst}
use native.Mathlib.Nat.{pow-le-pow_right, mod-lt, mod-eq_of_lt}
use mathlib.Core.Bool.{true≢false}
use deltafs.Prelude.{
  ℕ, zero, suc, ◌%◌, ◌^◌, ◌<◌, ◌≤◌, ◌≡◌, refl, Bool, true, false, get_or, arith, ◌⊎◌, inl, inr, ◌∙◌,
  sym,
}
use deltafs.Plfsio.Cuckoo.Bits.{pow_pos, masked, masked_lt, other_bucket}
use deltafs.Plfsio.Cuckoo.Table.{
  Table, Scan, empty_at, present, no_room, u32_mod, no_keys, read, key_of, value_of, write, scan,
  add_moves, add_to,
}
use deltafs.Plfsio.Cuckoo.Kept.{
  IsTable, IsHome, Stored, Holds, key_of_below, same_cell, write-IsTable,
}
use deltafs.Plfsio.Cuckoo.Cells.{
  Found, scan-Found, other-IsHome, Kept, same_space, Stored-write, write-Stored,
}

module _ (k v : ℕ) where
  Scan-cases : (r : Scan) → ((l : ℕ) × (r ≡ empty_at l)) ⊎ ((r ≡ present) ⊎ (r ≡ no_room))
  Scan-cases (empty_at l) = inl (l, refl)
  Scan-cases present = inr (inl refl)
  Scan-cases no_room = inr (inr refl)

  module _ (next : ℕ → ℕ × ℕ) (narrow : k ≤ 32) (m : ℕ) where
    -- What the moves make of a table: it is well formed, and has what it had and what was to be
    -- added.
    record IsGrown (t : Table) (i fp value : ℕ) (r : Table) : Type 0 where
      table : IsTable k v m r
      holds :
          (home f content : ℕ)
          → home < 2 ^ m
          → 0 < f
          → Kept k v t i fp value home f content
          → Holds k v r home f content

    above_32 : (n : ℕ) → n < 32 → n ≤ 32
    above_32 n h = omega arith

    placed :
        (i fp value l : ℕ) (t : Table)
        → IsTable k v m t
        → i < 2 ^ m
        → fp < 2 ^ k
        → Found k v fp value (get_or t.space i no_keys) 4 0 (empty_at l)
        → IsGrown t i fp value (write k v i l fp value t)
    placed i fp value l t w hi hf (hl, none_there) = record {
      table = write-IsTable k v m i l fp value t w hi hl;
      holds = λ home f content hh pos kept. elim kept [
        | inl s ↦ elim (same_cell k v i l s.bucket s.slot) [
          | inl same ↦
              let empty : key_of k v (read t s.bucket s.slot) ≡ 0 =
                rw (← same.0, ← same.1) (unfold read in none_there) in
              absurd (omega (arith, s.key))
          | inr apart ↦ inl (Stored-write k v m i l fp value t home f content w hi s apart)
        ]
        | inr (at_home, e, e') ↦ inl (
            subst (λ g. Stored k v (write k v i l fp value t) home g content) e
              (write-Stored k v m i l fp value t home content w narrow hi hl hf (rw e at_home) e'))
      ];
    }

    there :
        (i fp value : ℕ) (t : Table)
        → IsTable k v m t
        → Found k v fp value (get_or t.space i no_keys) 4 0 present
        → IsGrown t i fp value t
    there i fp value t w (l, hl, key, content) = record {
      table = w;
      holds = λ home f value' hh pos kept. elim kept [
        | inl s ↦ inl s
        | inr (at_home, e, e') ↦ inl (record {
          bucket = i;
          slot = l;
          at_home = at_home;
          in_bucket = hl;
          key = unfold read in (key ∙ e);
          content = unfold read in (content ∙ e');
        })
      ];
    }

    -- A fingerprint goes on to its other bucket.
    other_way :
        (i fp value : ℕ) (t r : Table)
        → IsTable k v m t
        → IsGrown t (other_bucket t.num_buckets i fp) fp value r
        → IsGrown t i fp value r
    other_way i fp value t r w g = record {
      table = g.table;
      holds = λ home f content hh pos kept. g.holds home f content hh pos (elim kept [
        | inl s ↦ inl s
        | inr (at_home, e, e') ↦
            inr (rw e (other-IsHome k v t.num_buckets m i home f w.buckets hh at_home), e, e')
      ]);
    }

    -- A fingerprint takes the place of another, which goes on to its own other bucket.
    kicked_out :
        (i fp value l : ℕ) (t r : Table)
        → IsTable k v m t
        → i < 2 ^ m
        → fp < 2 ^ k
        → l < 4
        → let old = read t i l in
          IsGrown
            (write k v i l fp value t)
            (other_bucket t.num_buckets i (key_of k v old))
            (key_of k v old)
            (value_of k v old)
            r
          → IsGrown t i fp value r
    kicked_out i fp value l t r w hi hf hl g = record {
      table = g.table;
      holds = λ home f content hh pos kept. g.holds home f content hh pos (elim kept [
        | inl s ↦ elim (same_cell k v i l s.bucket s.slot) [
          | inl same ↦
              let key : key_of k v (read t i l) ≡ f = rw (same.0, same.1) s.key in
              let content' : value_of k v (read t i l) ≡ content % 2 ^ v =
                rw (same.0, same.1) s.content in
              let home' = subst (λ b. IsHome k v t.num_buckets b home f) (sym same.0) s.at_home in
              inr (
                unfold write in
                    rw key (other-IsHome k v t.num_buckets m i home f w.buckets hh home'),
                key,
                rw content' (mod-eq_of_lt (mod-lt content (pow_pos v))),
              )
          | inr apart ↦ inl (Stored-write k v m i l fp value t home f content w hi s apart)
        ]
        | inr (at_home, e, e') ↦ inl (
            subst (λ g. Stored k v (write k v i l fp value t) home g content) e
              (write-Stored k v m i l fp value t home content w narrow hi hl hf (rw e at_home) e'))
      ]);
    }

    add_moves-IsGrown :
        (left : ℕ) (first : Bool) (i fp value : ℕ) (t : Table) (rnd : ℕ)
        → IsTable k v m t
        → i < 2 ^ m
        → 0 < fp
        → fp < 2 ^ k
        → IsGrown t i fp value (add_moves k v next left first i fp value t rnd).0
    unfolding add_moves
    add_moves-IsGrown zero first i fp value t rnd w hi some hf = record {
      table = record {
        buckets = w.buckets;
        size = w.size;
        small = w.small;
        cells = unfold read in w.cells;
      };
      holds = λ home f content hh pos kept. elim kept [
        | inl s ↦ inl (same_space k v t _ home f content refl refl s)
        | inr (at_home, e, e') ↦
            let small = pow-le-pow_right {n = 2} (omega arith) (above_32 m w.small) in
            let index : i % u32_mod ≡ i = omega arith in
            inr (record { is_full = refl; key = e; content = e'; at_home = rw index at_home })
      ];
    }
    add_moves-IsGrown (suc left) true i fp value t rnd w hi some hf =
        let b = get_or t.space i no_keys in
        let found = scan-Found k v fp value b 4 0 in
        elim (Scan-cases (scan k v fp value b 4 0)) [
          | inl (l, e) ↦
              rw (add_moves, e)
                (placed i fp value l t w hi hf (subst (Found k v fp value b 4 0) e found))
          | inr (inl e) ↦
              rw (add_moves, e) (there i fp value t w (subst (Found k v fp value b 4 0) e found))
          | inr (inr e) ↦
              let i' = other_bucket t.num_buckets i fp in
              let here : i' < 2 ^ m = rw w.buckets (masked_lt _ m) in
              rw (add_moves, e)
                (other_way i fp value t _ w
                  (add_moves-IsGrown left false i' fp value t rnd w here some hf))
        ]
    add_moves-IsGrown (suc left) false i fp value t rnd w hi some hf =
        let b = get_or t.space i no_keys in
        let found = scan-Found k v fp value b 4 0 in
        elim (Scan-cases (scan k v fp value b 4 0)) [
          | inl (l, e) ↦
              rw (add_moves, e)
                (placed i fp value l t w hi hf (subst (Found k v fp value b 4 0) e found))
          | inr (inl e) ↦
              rw (add_moves, e) (there i fp value t w (subst (Found k v fp value b 4 0) e found))
          | inr (inr e) ↦
              let room = subst (Found k v fp value b 4 0) e found in
              let victim = (next rnd).0 % 4 in
              let kicked = read t i victim in
              let i' = other_bucket t.num_buckets i (key_of k v kicked) in
              let here : i' < 2 ^ m = rw w.buckets (masked_lt _ m) in
              let w' = write-IsTable k v m i victim fp value t w hi (omega arith) in
              rw (add_moves, e)
                (kicked_out i fp value victim t _ w hi hf (omega arith) (
                  add_moves-IsGrown left false i' (key_of k v kicked) (value_of k v kicked)
                    (write k v i victim fp value t) (next rnd).1 w' here
                    (unfold read in room victim (omega arith) (omega arith))
                    (key_of_below k v kicked (w.cells i victim))))
        ]

    -- A table that is not full takes a fingerprint with its value and loses none that it had, even
    -- if it is full then. It has a power of two of buckets, below 2 ^ 32.
    pub add_to-Holds :
        (max_moves ha fp value : ℕ) (t : Table) (rnd : ℕ)
        → IsTable k v m t
        → t.full ≡ false
        → 0 < fp
        → fp < 2 ^ k
        → let r = (add_to k v next max_moves ha fp value t rnd).0 in
          IsTable k v m r
          × Holds k v r (masked ha (2 ^ m)) fp value
          × ((home f content : ℕ)
              → home < 2 ^ m
              → 0 < f
              → Holds k v t home f content
              → Holds k v r home f content)
    unfolding add_to
    add_to-Holds max_moves ha fp value t rnd w unfilled some hf =
        let i = masked ha t.num_buckets in
        let here : i < 2 ^ m = rw w.buckets (masked_lt ha m) in
        let g = add_moves-IsGrown max_moves true i fp value t rnd w here some hf in
        (
          g.table,
          rw (← w.buckets) (g.holds i fp value here some (inr (inl refl, refl, refl))),
          λ home f content hh pos had. g.holds home f content hh pos (elim had [
            | inl s ↦ inl s
            | inr victim ↦ absurd (true≢false (sym victim.is_full ∙ unfilled))
          ]),
        )
