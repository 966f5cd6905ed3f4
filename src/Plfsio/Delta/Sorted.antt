-- ===== src/Plfsio/Delta/Sorted.antt =====
-- The keys of a bitmap filter in ascending order, as Finish puts them there: bucket after bucket, each
-- one sorted.
use deltafs.Prelude.{
  ℕ, ◌+◌, ◌*◌, ◌<◌, ◌≤◌, ◌≡◌, refl, Bool, false, ◌||◌, ◌==◌, leb, List, [], ◌∷◌, ◌++◌, All, arith,
  ◌∙◌, Bool-cases, inl, inr,
}
use deltafs.Plfsio.Compressed.{insert_sorted, sort}
use deltafs.Plfsio.Delta.{u32_mod}

-- Whether a key is among those of a bucket, and of any bucket.
abbrev pub member : ℕ → List ℕ → Bool
member k [] = false
member k (j ∷ js) = (j == k) || member k js

abbrev pub member_any : ℕ → List (List ℕ) → Bool
member_any k [] = false
member_any k (ks ∷ buckets) = member k ks || member_any k buckets

-- Bucket `i` of the bitmap holds keys of 256 * i to 256 * i + 255, of 32 bits.
abbrev pub InBucket : ℕ → ℕ → Type 0
InBucket i k = (i * 256 ≤ k) × (k < i * 256 + 256) × (k < u32_mod)

abbrev pub InBuckets : ℕ → List (List ℕ) → Type 0
InBuckets i [] = Unit {0}
InBuckets i (ks ∷ buckets) = All (InBucket i) ks × InBuckets (i + 1) buckets

abbrev pub Ascending : ℕ → List ℕ → Type 0
Ascending lo [] = Unit {0}
Ascending lo (k ∷ ks) = (lo ≤ k) × (k < u32_mod) × Ascending k ks

Ascending-mono : (lo mid : ℕ) (ks : List ℕ) → lo ≤ mid → Ascending mid ks → Ascending lo ks
Ascending-mono lo mid [] h a = tt
Ascending-mono lo mid (k ∷ ks) h a = (omega arith, a.1, a.2)

pub not-member-below :
    (bit lo : ℕ) (ks : List ℕ) → Ascending lo ks → bit < lo → member bit ks ≡ false
not-member-below bit lo [] a h = refl
not-member-below bit lo (k ∷ ks) a h = ground (arith, not-member-below bit k ks a.2)

abbrev pub all_sorted : List (List ℕ) → List ℕ
all_sorted [] = []
all_sorted (ks ∷ buckets) = sort ks ++ all_sorted buckets

-- Keys of one bucket, sorted.
abbrev pub AscendingIn : ℕ → ℕ → List ℕ → Type 0
AscendingIn lo hi [] = lo ≤ hi
AscendingIn lo hi (k ∷ ks) = (lo ≤ k) × (k < u32_mod) × AscendingIn k hi ks

insert_sorted-AscendingIn :
    (k lo hi : ℕ) (ks : List ℕ)
    → lo ≤ k
    → k ≤ hi
    → k < u32_mod
    → AscendingIn lo hi ks
    → AscendingIn lo hi (insert_sorted k ks)
unfolding insert_sorted
insert_sorted-AscendingIn k lo hi [] h1 h2 h3 a = (h1, h3, h2)
insert_sorted-AscendingIn k lo hi (j ∷ js) h1 h2 h3 a = elim (Bool-cases (leb k j)) [
  | inl before ↦ rw before (h1, h3, (ground arith, a.1, a.2))
  | inr after ↦ rw after (a.0, a.1, insert_sorted-AscendingIn k j hi js (ground arith) h2 h3 a.2)
]

pub member-insert_sorted :
    (bit k : ℕ) (ks : List ℕ) → member bit (insert_sorted k ks) ≡ ((k == bit) || member bit ks)
unfolding insert_sorted
member-insert_sorted bit k [] = refl
member-insert_sorted bit k (j ∷ js) = ground (arith, member-insert_sorted bit k js)

sort-AscendingIn :
    (i : ℕ) (ks : List ℕ) → All (InBucket i) ks → AscendingIn (i * 256) (i * 256 + 255) (sort ks)
unfolding sort
sort-AscendingIn i [] h = omega arith
sort-AscendingIn i (k ∷ ks) h =
    insert_sorted-AscendingIn k (i * 256) (i * 256 + 255) (sort ks) h.0.0 (omega arith) h.0.2
      (sort-AscendingIn i ks h.1)

pub member-sort : (bit : ℕ) (ks : List ℕ) → member bit (sort ks) ≡ member bit ks
unfolding sort
member-sort bit [] = refl
member-sort bit (k ∷ ks) = member-insert_sorted bit k (sort ks) ∙ rw (member-sort bit ks)

Ascending-append :
    (lo hi : ℕ) (ks js : List ℕ) → AscendingIn lo hi ks → Ascending hi js → Ascending lo (ks ++ js)
Ascending-append lo hi [] js a b = Ascending-mono lo hi js a b
Ascending-append lo hi (k ∷ ks) js a b = (a.0, a.1, Ascending-append k hi ks js a.2 b)

pub all_sorted-Ascending :
    (i : ℕ) (buckets : List (List ℕ))
    → InBuckets i buckets
    → Ascending (i * 256) (all_sorted buckets)
all_sorted-Ascending i [] h = tt
all_sorted-Ascending i (ks ∷ buckets) h =
    Ascending-append (i * 256) (i * 256 + 255) (sort ks) (all_sorted buckets)
      (sort-AscendingIn i ks h.0)
      (Ascending-mono (i * 256 + 255) ((i + 1) * 256) _ (omega arith)
        (all_sorted-Ascending (i + 1) buckets h.1))

pub member-append :
    (bit : ℕ) (ks js : List ℕ) → member bit (ks ++ js) ≡ (member bit ks || member bit js)
member-append bit [] js = refl
member-append bit (k ∷ ks) js = ground (arith, member-append bit ks js)

pub member-all_sorted :
    (bit : ℕ) (buckets : List (List ℕ)) → member bit (all_sorted buckets) ≡ member_any bit buckets
member-all_sorted bit [] = refl
member-all_sorted bit (ks ∷ buckets) =
    member-append bit (sort ks) (all_sorted buckets)
    ∙ rw (member-sort bit ks, member-all_sorted bit buckets)
