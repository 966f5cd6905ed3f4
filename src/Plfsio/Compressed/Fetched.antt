-- ===== src/Plfsio/Compressed/Fetched.antt =====
-- What Iter finds in the buckets, when each holds as many extra keys as its size says.
use deltafs.Prelude.{
  ℕ, zero, suc, ◌+◌, ◌-◌, ◌*◌, ◌<◌, ◌≤◌, ◌≡◌, refl, ◌∙◌, ap, Bool, false, ◌||◌, List, [], ◌∷◌,
  Option, none, some, Bytes, length, All, arith,
}
use deltafs.Plfsio.Compressed.{Row, fetch_keys, with_key, iter, with_bucket}
use deltafs.Plfsio.Compressed.Ranges.{count_in, Ranged, Ranged-lower, first_in, none_in}
use deltafs.Plfsio.Delta.{u32_mod}
use deltafs.Plfsio.Delta.Sorted.{member, member_any, InBucket, InBuckets}

-- The keys that a bucket holds in its own bytes.
abbrev pub slot_keys : ℕ → ℕ → Bytes → List ℕ
slot_keys b zero slots = []
slot_keys b (suc n) [] = []
slot_keys b (suc n) (s ∷ slots) = (s + b * 256) ∷ slot_keys b n slots

pub slot_keys_none : (b n : ℕ) → slot_keys b n [] ≡ []
slot_keys_none b zero = refl
slot_keys_none b (suc n) = refl

abbrev pub held : ℕ → ℕ → List Row → Bool
held bit b [] = false
held bit b (r ∷ rows) = member bit (slot_keys b r.size r.slots) || held bit (b + 1) rows

abbrev pub AreBytes : Bytes → Type 0
AreBytes [] = Unit {0}
AreBytes (s ∷ slots) = (s < 256) × AreBytes slots

record Fetches (b hi n : ℕ) (slots : Bytes) (extra : List ℕ) : Type 0 where
  keys : List ℕ
  rest : List ℕ
  result : fetch_keys b n slots extra ≡ some (keys, rest)
  inside : All (InBucket b) keys
  past : Ranged ((b + 1) * 256) hi rest
  others : (c : ℕ) → b < c → count_in c rest ≡ count_in c extra
  same :
      (bit : ℕ)
      → (member bit keys || member bit rest)
        ≡ (member bit (slot_keys b n slots) || member bit extra)

fetch_keys-Fetches :
    (b hi n : ℕ) (slots : Bytes) (extra : List ℕ)
    → (b + 1) * 256 ≤ u32_mod
    → AreBytes slots
    → Ranged (b * 256) hi extra
    → count_in b extra ≡ n - length slots
    → Fetches b hi n slots extra
unfolding fetch_keys
fetch_keys-Fetches b hi zero slots extra small bs a h = record {
  keys = [];
  rest = extra;
  result = refl;
  inside = tt;
  past = none_in b hi extra a (omega arith);
  others = λ c lt. refl;
  same = λ bit. refl;
}
fetch_keys-Fetches b hi (suc n) (s ∷ slots) extra small bs a h =
    let f = fetch_keys-Fetches b hi n slots extra small bs.1 a (omega arith) in
    record {
      keys = (s + b * 256) ∷ f.keys;
      rest = f.rest;
      result = ap (with_key (s + b * 256)) f.result;
      inside = (omega arith, f.inside);
      past = f.past;
      others = f.others;
      same = λ bit. ground (arith, f.same bit);
    }
fetch_keys-Fetches b hi (suc n) [] [] small bs a h = absurd (omega arith)
fetch_keys-Fetches b hi (suc n) [] (k ∷ extra) small bs a h =
    let mine = first_in b hi k extra a (omega arith) in
    let counted : count_in b (k ∷ extra) ≡ 1 + count_in b extra = ground arith in
    let f =
      fetch_keys-Fetches b hi n [] extra small tt (Ranged-lower (b * 256) k hi extra a.0 a.2)
        (omega arith) in
    record {
      keys = k ∷ f.keys;
      rest = f.rest;
      result = ap (with_key k) f.result;
      inside = (omega arith, f.inside);
      past = f.past;
      others = λ c lt. ground (arith, f.others c lt);
      same = λ bit. ground (arith, f.same bit, ap (member bit) (slot_keys_none b n));
    }

-- Each bucket from `b` on has bytes, and the extra keys that its bytes have no room for.
abbrev pub Fits : (ℕ → ℕ) → ℕ → List Row → Type 0
Fits extras b [] = Unit {0}
Fits extras b (r ∷ rows) =
    AreBytes r.slots × (extras b ≡ r.size - length r.slots) × Fits extras (b + 1) rows

Fits-other :
    (f g : ℕ → ℕ) (b : ℕ) (rows : List Row)
    → ((c : ℕ) → b ≤ c → g c ≡ f c)
    → Fits f b rows
    → Fits g b rows
Fits-other f g b [] e h = tt
Fits-other f g b (r ∷ rows) e h =
    (h.0, e b (omega arith) ∙ h.1, Fits-other f g (b + 1) rows (λ c lt. e c (omega arith)) h.2)

pub record Iterates (b : ℕ) (rows : List Row) (extra : List ℕ) : Type 0 where
  pub buckets : List (List ℕ)
  pub result : iter b rows extra ≡ some buckets
  pub inside : InBuckets b buckets
  pub same : (bit : ℕ) → member_any bit buckets ≡ (held bit b rows || member bit extra)

pub iter-Iterates :
    (b : ℕ) (rows : List Row) (extra : List ℕ)
    → (b + length rows) * 256 ≤ u32_mod
    → Ranged (b * 256) ((b + length rows) * 256) extra
    → Fits (λ c. count_in c extra) b rows
    → Iterates b rows extra
unfolding iter
iter-Iterates b [] [] small a h = record {
  buckets = [];
  result = refl;
  inside = tt;
  same = λ bit. refl;
}
iter-Iterates b [] (k ∷ extra) small a h = absurd (omega arith)
iter-Iterates b (r ∷ rows) extra small a h =
    let f =
      fetch_keys-Fetches b ((b + length (r ∷ rows)) * 256) r.size r.slots extra (omega arith) h.0 a
        h.1 in
    let same_end : b + length (r ∷ rows) ≡ b + 1 + length rows = omega arith in
    let past : Ranged ((b + 1) * 256) ((b + 1 + length rows) * 256) f.rest =
      rw (← same_end) f.past in
    let i =
      iter-Iterates (b + 1) rows f.rest (omega arith) past
        (Fits-other _ _ (b + 1) rows (λ c lt. f.others c (omega arith)) h.2) in
    record {
      buckets = f.keys ∷ i.buckets;
      result =
          ap
            (λ (o : Option (List ℕ × List ℕ)). elim o [
              | none ↦ none
              | some (keys, rest) ↦ with_bucket keys (iter (b + 1) rows rest)
            ])
            f.result
          ∙ ap (with_bucket f.keys) i.result;
      inside = (f.inside, i.inside);
      same = λ bit. ground (arith, f.same bit, i.same bit);
    }
