-- ===== src/Plfsio/Compressed/Ranges.antt =====
-- How many of some keys belong to a bucket.
use deltafs.Prelude.{
  ℕ, ◌+◌, ◌*◌, ◌/◌, ◌<◌, ◌≤◌, ◌≡◌, refl, Bool, true, false, ◌==◌, leb, List, [], ◌∷◌, ◌++◌, arith,
  Bool-cases, inl, inr, ◌∙◌, length,
}
use deltafs.Plfsio.Compressed.{insert_sorted, sort}

abbrev pub one : Bool → ℕ
one true = 1
one false = 0

-- Bucket `b` is that of the keys from 256 * b to 256 * b + 255.
abbrev pub count_in : ℕ → List ℕ → ℕ
count_in b [] = 0
count_in b (k ∷ ks) = one (k / 256 == b) + count_in b ks

pub count_in_le : (b : ℕ) (ks : List ℕ) → count_in b ks ≤ length ks
count_in_le b [] = omega arith
count_in_le b (k ∷ ks) = ground (arith, count_in_le b ks)

pub count_in-append :
    (b : ℕ) (ks js : List ℕ) → count_in b (ks ++ js) ≡ count_in b ks + count_in b js
count_in-append b [] js = omega arith
count_in-append b (k ∷ ks) js = omega (arith, count_in-append b ks js)

count_in-insert_sorted :
    (b k : ℕ) (ks : List ℕ) → count_in b (insert_sorted k ks) ≡ count_in b (k ∷ ks)
unfolding insert_sorted
count_in-insert_sorted b k [] = refl
count_in-insert_sorted b k (j ∷ js) = elim (Bool-cases (leb k j)) [
  | inl e ↦ rw e
  | inr e ↦ rw e (omega (arith, count_in-insert_sorted b k js))
]

pub count_in-sort : (b : ℕ) (ks : List ℕ) → count_in b (sort ks) ≡ count_in b ks
unfolding sort
count_in-sort b [] = refl
count_in-sort b (k ∷ ks) = count_in-insert_sorted b k (sort ks) ∙ omega (arith, count_in-sort b ks)

-- Ascending keys of a range.
abbrev pub Ranged : ℕ → ℕ → List ℕ → Type 0
Ranged lo hi [] = Unit {0}
Ranged lo hi (k ∷ ks) = (lo ≤ k) × (k < hi) × Ranged k hi ks

abbrev pub AllBelow : ℕ → List ℕ → Type 0
AllBelow hi [] = Unit {0}
AllBelow hi (k ∷ ks) = (k < hi) × AllBelow hi ks

pub AllBelow-append :
    (hi : ℕ) (ks js : List ℕ) → AllBelow hi ks → AllBelow hi js → AllBelow hi (ks ++ js)
AllBelow-append hi [] js h g = g
AllBelow-append hi (k ∷ ks) js h g = (h.0, AllBelow-append hi ks js h.1 g)

pub Ranged-lower : (lo mid hi : ℕ) (ks : List ℕ) → lo ≤ mid → Ranged mid hi ks → Ranged lo hi ks
Ranged-lower lo mid hi [] h a = tt
Ranged-lower lo mid hi (k ∷ ks) h a = (omega arith, a.1, a.2)

insert_sorted-Ranged :
    (k lo hi : ℕ) (ks : List ℕ)
    → lo ≤ k
    → k < hi
    → Ranged lo hi ks
    → Ranged lo hi (insert_sorted k ks)
unfolding insert_sorted
insert_sorted-Ranged k lo hi [] h1 h2 a = (h1, h2, tt)
insert_sorted-Ranged k lo hi (j ∷ js) h1 h2 a = elim (Bool-cases (leb k j)) [
  | inl before ↦ rw before (h1, h2, (ground arith, a.1, a.2))
  | inr after ↦ rw after (a.0, a.1, insert_sorted-Ranged k j hi js (ground arith) h2 a.2)
]

pub sort-Ranged : (hi : ℕ) (ks : List ℕ) → AllBelow hi ks → Ranged 0 hi (sort ks)
unfolding sort
sort-Ranged hi [] h = tt
sort-Ranged hi (k ∷ ks) h =
    insert_sorted-Ranged k 0 hi (sort ks) (omega arith) h.0 (sort-Ranged hi ks h.1)

count_in_above :
    (b lo hi : ℕ) (ks : List ℕ) → (b + 1) * 256 ≤ lo → Ranged lo hi ks → count_in b ks ≡ 0
count_in_above b lo hi [] h a = refl
count_in_above b lo hi (k ∷ ks) h a = ground (arith, count_in_above b k hi ks (omega arith) a.2)

-- Ascending keys that are not below a bucket: if one is in it, the first is.
pub first_in :
    (b hi k : ℕ) (ks : List ℕ)
    → Ranged (b * 256) hi (k ∷ ks)
    → 0 < count_in b (k ∷ ks)
    → k / 256 ≡ b
first_in b hi k ks a h = elim (Bool-cases (leb ((b + 1) * 256) k)) [
  | inl past ↦ absurd (
      omega (
        arith,
        count_in_above b ((b + 1) * 256) hi (k ∷ ks) (omega arith) (ground arith, a.1, a.2),
      ))
  | inr here ↦ ground arith
]

-- If none is in it, they are all past it.
pub none_in :
    (b hi : ℕ) (ks : List ℕ)
    → Ranged (b * 256) hi ks
    → count_in b ks ≡ 0
    → Ranged ((b + 1) * 256) hi ks
none_in b hi [] a h = tt
none_in b hi (k ∷ ks) a h = (ground arith, a.1, a.2)
