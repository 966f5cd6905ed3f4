-- ===== src/Plfsio/Cuckoo/Cells.antt =====
-- What a scan of a bucket finds, and what a write keeps, in the tables of
-- src/libdeltafs/plfsio/v1/cuckoo.cc.
use deltafs.Prelude.{
  ℕ, zero, suc, ◌+◌, ◌%◌, ◌^◌, ◌<◌, ◌≤◌, ◌≡◌, ◌≢◌, ◌&&◌, ◌==◌, arith, ◌⊎◌, inl, inr, Bool-cases,
  ◌∙◌,
}
use deltafs.Plfsio.Cuckoo.Bits.{other_bucket, other_bucket_twice}
use deltafs.Plfsio.Cuckoo.Table.{
  Bucket, Table, Scan, empty_at, present, no_room, cell, read, key_of, value_of, write, scan,
}
use deltafs.Plfsio.Cuckoo.Kept.{
  IsTable, IsHome, Stored, key_of-fuse, value_of-fuse, read-write_self, read-write_ne,
}

module _ (k v : ℕ) where
  -- What a scan of `left` cells from `j` on says of the bucket.
  abbrev pub Found : ℕ → ℕ → Bucket → ℕ → ℕ → Scan → Type 0
  Found fp value b left j (empty_at l) = (l < left + j) × (key_of k v (cell b l) ≡ 0)
  Found fp value b left j present =
      (l : ℕ) × (l < left + j)
      × (key_of k v (cell b l) ≡ fp)
      × (value_of k v (cell b l) ≡ value % 2 ^ v)
  Found fp value b left j no_room = (l : ℕ) → j ≤ l → l < left + j → 0 < key_of k v (cell b l)

  pub wider_scan :
      (fp value : ℕ) (b : Bucket) (left j : ℕ) (r : Scan)
      → 0 < key_of k v (cell b j)
      → Found fp value b left (suc j) r
      → Found fp value b (suc left) j r
  wider_scan fp value b left j (empty_at l) some h = (omega arith, h.1)
  wider_scan fp value b left j present some h = (h.0, omega arith, h.2, h.3)
  wider_scan fp value b left j no_room some h = λ l p q. elim (Bool-cases (l == j)) [
    | inl e ↦ let same : l ≡ j = ground arith in rw same some
    | inr e ↦ h l (ground arith) (omega arith)
  ]

  pub scan-Found :
      (fp value : ℕ) (b : Bucket) (left j : ℕ)
      → Found fp value b left j (scan k v fp value b left j)
  unfolding scan
  scan-Found fp value b zero j = λ l p q. absurd (omega arith)
  scan-Found fp value b (suc left) j = elim (Bool-cases (key_of k v (cell b j) == 0)) [
    | inl e ↦ rw e (omega arith, ground arith)
    | inr e ↦
        let hit = (key_of k v (cell b j) == fp) && (value_of k v (cell b j) == value % 2 ^ v) in
        elim (Bool-cases hit) [
          | inl e' ↦ rw (e, e') (j, omega arith, ground arith, ground arith)
          | inr e' ↦
              rw (e, e')
                (wider_scan fp value b left j _ (ground arith) (scan-Found fp value b left (suc j)))
        ]
  ]

  pub other-IsHome :
      (n m b home f : ℕ)
      → n ≡ 2 ^ m
      → home < 2 ^ m
      → IsHome k v n b home f
      → IsHome k v n (other_bucket n b f) home f
  other-IsHome n m b home f size h (inl e) = inr (rw e)
  other-IsHome n m b home f size h (inr e) = inl (rw (e, size) (other_bucket_twice home f m h))

  -- The key is in the table, or it is the one that is to be put in bucket `i` next.
  abbrev pub Kept : Table → ℕ → ℕ → ℕ → ℕ → ℕ → ℕ → Type 0
  Kept t i fp value home f content =
      Stored k v t home f content
      ⊎ (IsHome k v t.num_buckets i home f × (fp ≡ f) × (value % 2 ^ v ≡ content % 2 ^ v))

  pub same_space :
      (t t' : Table) (home f content : ℕ)
      → t.space ≡ t'.space
      → t.num_buckets ≡ t'.num_buckets
      → Stored k v t home f content
      → Stored k v t' home f content
  unfolding read
  same_space t t' home f content e n s = record {
    bucket = s.bucket;
    slot = s.slot;
    at_home = rw (← n) s.at_home;
    in_bucket = s.in_bucket;
    key = rw (← e) s.key;
    content = rw (← e) s.content;
  }

  -- Writing over a cell keeps the keys of the others.
  pub Stored-write :
      (m i j fp value : ℕ) (t : Table) (home f content : ℕ)
      → IsTable k v m t
      → i < 2 ^ m
      → (s : Stored k v t home f content) → (i ≢ s.bucket) ⊎ (j ≢ s.slot)
      → Stored k v (write k v i j fp value t) home f content
  Stored-write m i j fp value t home f content w hi s apart =
      let same = read-write_ne k v i j fp value t s.bucket s.slot (omega (arith, w.size)) apart in
      record {
        bucket = s.bucket;
        slot = s.slot;
        at_home = unfold write in s.at_home;
        in_bucket = s.in_bucket;
        key = rw same s.key;
        content = rw same s.content;
      }

  pub write-Stored :
      (m i j fp value : ℕ) (t : Table) (home content : ℕ)
      → IsTable k v m t
      → k ≤ 32
      → i < 2 ^ m
      → j < 4
      → fp < 2 ^ k
      → IsHome k v t.num_buckets i home fp
      → value % 2 ^ v ≡ content % 2 ^ v
      → Stored k v (write k v i j fp value t) home fp content
  write-Stored m i j fp value t home content w narrow hi hj hf at_home e =
      let now = read-write_self k v i j fp value t (omega (arith, w.size)) hj in
      record {
        bucket = i;
        slot = j;
        at_home = unfold write in at_home;
        in_bucket = hj;
        key = rw now (key_of-fuse k v fp value hf narrow);
        content = rw now (value_of-fuse k v fp value hf ∙ e);
      }
