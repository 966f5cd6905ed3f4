-- ===== src/Mds/Table.antt =====
-- The tables of src/libdeltafs/util/lease.cc and util/dcntl.cc: keyed, bounded caches whose pinned
-- entries stay. Which entries leave when room is made is the cache's choice (`LRUCache` of
-- pdlfs-common): `none` is a full table, and `some keep` names entries that stay. Values are
-- changed in place by `put`, as through the table's pointers.
use deltafs.Prelude.{
  Bool, true, false, ◌||◌, List, [], ◌∷◌, Option, none, some, ◌≡◌, if◌then◌else◌, arith, Bool-cases,
  ◌⊎◌, inl, inr, refl,
}

pub data Inserted (T : Type 0) : Type 0 where
  exists_already no_buffers : Inserted T
  inserted : T → Inserted T

pub Inserted-cases :
    {T : Type 0} (r : Inserted T)
    → (r ≡ exists_already) ⊎ ((r ≡ no_buffers) ⊎ ((t : T) × (r ≡ inserted t)))
Inserted-cases exists_already = inl refl
Inserted-cases no_buffers = inr (inl refl)
Inserted-cases (inserted t) = inr (inr (t, refl))

module _ {K V : Type 0} (eq : K → K → Bool) where
  unfoldable pub find : K → List (K × V) → Option V
  find k [] = none
  find k ((j, v) ∷ t) = if eq j k then some v else find k t

  unfoldable pub put : K → V → List (K × V) → List (K × V)
  put k v [] = []
  put k v ((j, w) ∷ t) = if eq j k then (j, v) ∷ t else (j, w) ∷ put k v t

  unfoldable pub remove : K → List (K × V) → List (K × V)
  remove k [] = []
  remove k ((j, w) ∷ t) = if eq j k then t else (j, w) ∷ remove k t

  -- What stays: the entries that the cache keeps, and the pinned ones in any case.
  unfoldable pub retain : (K → Bool) → (V → Bool) → List (K × V) → List (K × V)
  retain keep pinned [] = []
  retain keep pinned ((j, w) ∷ t) =
      let rest = retain keep pinned t in if keep j || pinned w then (j, w) ∷ rest else rest

  abbrev make_room : Option (K → Bool) → (V → Bool) → K → V → List (K × V) → Inserted (List (K × V))
  make_room none pinned k v t = no_buffers
  make_room (some keep) pinned k v t = inserted ((k, v) ∷ retain keep pinned t)

  unfoldable pub insert :
      Option (K → Bool) → (V → Bool) → K → V → List (K × V) → Inserted (List (K × V))
  unfolding find retain
  insert room pinned k v t = elim (find k t) [
    | some w ↦ exists_already
    | none ↦ make_room room pinned k v t
  ]

module _ {K V : Type 0} (eq : K → K → Bool) (refl_eq : (k : K) → eq k k ≡ true) where
  -- A key that is in the table is found with the value put there.
  pub find-put_self :
      (k : K) {w : V} (v : V) (t : List (K × V))
      → find eq k t ≡ some w
      → find eq k (put eq k v t) ≡ some v
  unfolding find put
  find-put_self k v [] h = cc
  find-put_self k {w} v ((j, u) ∷ t) h = ground (arith, find-put_self k {w = w} v t)

  pub find-insert_self :
      (room : Option (K → Bool)) (pinned : V → Bool) (k : K) (v : V) (t : List (K × V))
      {u : List (K × V)}
      → insert eq room pinned k v t ≡ inserted u
      → find eq k u ≡ some v
  unfolding find insert retain
  find-insert_self none pinned k v t h = ground arith
  find-insert_self (some keep) pinned k v t h = ground (arith, refl_eq k)

module _ {K V : Type 0} (eq : K → K → Bool) (sound : (j k : K) → eq j k ≡ true → j ≡ k) where
  -- Other keys are found as before.
  pub find-put_ne :
      (k i : K) (v : V) (t : List (K × V)) → eq k i ≡ false → find eq i (put eq k v t) ≡ find eq i t
  unfolding find put
  find-put_ne k i v [] h = refl
  find-put_ne k i v ((j, w) ∷ t) h = elim (Bool-cases (eq j k)) [
    | inl same ↦ ground (arith, sound j k same, find-put_ne k i v t)
    | inr other ↦ ground (arith, find-put_ne k i v t)
  ]

  -- A pinned entry stays when room is made.
  pub find-retain :
      (keep : K → Bool) (pinned : V → Bool) (k : K) (v : V) (t : List (K × V))
      → find eq k t ≡ some v
      → pinned v ≡ true
      → find eq k (retain eq keep pinned t) ≡ some v
  unfolding find retain
  find-retain keep pinned k v [] h p = cc
  find-retain keep pinned k v ((j, w) ∷ t) h p = ground (arith, find-retain keep pinned k v t)

  -- So it stays when another key is inserted.
  pub find-insert_pinned :
      (room : Option (K → Bool)) (pinned : V → Bool) (j k : K) (m v : V) (t u : List (K × V))
      → insert eq room pinned j m t ≡ inserted u
      → find eq k t ≡ some v
      → pinned v ≡ true
      → find eq k u ≡ some v
  unfolding insert find
  find-insert_pinned none pinned j k m v t u h f p = ground arith
  find-insert_pinned (some keep) pinned j k m v t u h f p =
      let stays = find-retain keep pinned k v t f p in
      elim (Bool-cases (eq j k)) [
        | inl same ↦ let e = sound j k same in ground arith
        | inr other ↦ ground arith
      ]
