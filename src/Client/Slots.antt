-- ===== src/Client/Slots.antt =====
-- What Alloc, Free and the ends of InternalOpen and Close of src/libdeltafs/deltafs_client.cc do to
-- the table of file descriptors.
use deltafs.Prelude.{
  ℕ, zero, suc, ◌+◌, ◌-◌, ◌%◌, ◌<◌, ◌≤◌, ◌≡◌, ◌≢◌, refl, sym, ◌∙◌, true, false, ltb, leb,
  Bool-cases, ◌⊎◌, inl, inr, List, [], ◌∷◌, Option, none, some, Option-cases, length, set, get_or,
  if◌then◌else◌, arith, length-set, get_or-set_self, get_or-set_ne,
}
use native.Mathlib.Nat.{mod-eq_of_lt, mod_self}
use deltafs.Client.Files.{Files, FdResult, ok, slot, alloc, fetch_file, open_file, opened}

next_slot :
    (s n : ℕ) → s < n → ((1 + s < n) × ((1 + s) % n ≡ 1 + s)) ⊎ ((1 + s ≡ n) × ((1 + s) % n ≡ 0))
next_slot s n h = elim (Bool-cases (ltb (1 + s) n)) [
  | inl e ↦ let lt : 1 + s < n = ground arith in inl (lt, mod-eq_of_lt lt)
  | inr e ↦ let full : 1 + s ≡ n = ground arith in inr (full, rw full (mod_self n))
]

-- The rounds from slot `s` to slot `j`.
abbrev rounds : ℕ → ℕ → ℕ → ℕ
rounds n s j = if leb s j then j - s else (n - s) + j

-- A round brings the slot nearer.
rounds_next :
    (n s j : ℕ)
    → s < n
    → j < n
    → s ≢ j
    → ((1 + s) % n < n) × (rounds n ((1 + s) % n) j < rounds n s j)
rounds_next n s j h lt other = elim (next_slot s n h) [
  | inl (below, step) ↦ rw step (below, ground arith)
  | inr (full, wrap) ↦ rw wrap (ground arith)
]

rounds_below : (n s j : ℕ) → s < n → j < n → rounds n s j < n
rounds_below n s j h lt = ground arith

module _ {F : Type 0} where
  -- The slots that are in use.
  abbrev pub used : List (Option F) → ℕ
  used [] = 0
  used (none ∷ fds) = used fds
  used (some f ∷ fds) = suc (used fds)

  used-set-some :
      (fds : List (Option F)) (i : ℕ) (f : F)
      → i < length fds
      → get_or fds i none ≡ none
      → used (set fds i (some f)) ≡ used fds + 1
  used-set-some [] i f h e = absurd (omega arith)
  used-set-some (none ∷ fds) zero f h e = omega arith
  used-set-some (some g ∷ fds) zero f h e = cc
  used-set-some (none ∷ fds) (suc i) f h e = used-set-some fds i f (omega arith) e
  used-set-some (some g ∷ fds) (suc i) f h e = omega (arith, used-set-some fds i f (omega arith) e)

  used-le : (fds : List (Option F)) → used fds ≤ length fds
  used-le [] = omega arith
  used-le (none ∷ fds) = omega (arith, used-le fds)
  used-le (some f ∷ fds) = omega (arith, used-le fds)

  -- There is a free slot unless all are in use.
  free_slot :
      (fds : List (Option F))
      → used fds < length fds
      → (j : ℕ) × (j < length fds) × (get_or fds j none ≡ none)
  free_slot [] h = absurd (omega arith)
  free_slot (none ∷ fds) h = (0, omega arith, refl)
  free_slot (some f ∷ fds) h =
      let (j, lt, e) = free_slot fds (omega arith) in (suc j, omega arith, e)

  -- The count of the open descriptors is right, and the next slot to look at is one.
  pub record IsFiles (t : Files F) : Type 0 where
    pub count : t.num_open_fds ≡ used t.fds
    pub in_range : t.fd_slot < length t.fds

  -- Alloc has taken the slot `i`, which was free.
  abbrev pub Taken : F → Files F → Option (ℕ × Files F) → Type 0
  Taken f t r =
      (i : ℕ) × (r
        ≡ some (
          i,
          record t { fds = set t.fds i (some f); num_open_fds = t.num_open_fds + 1; fd_slot = i },
        ))
      × (i < length t.fds)
      × (slot t i ≡ none)

  some_not_none : (g : F) → some g ≢ none
  some_not_none g e = cc

  alloc-Taken :
      (fuel j : ℕ) (f : F) (t : Files F)
      → t.fd_slot < length t.fds
      → j < length t.fds
      → slot t j ≡ none
      → rounds (length t.fds) t.fd_slot j < fuel
      → Taken f t (alloc fuel f t)
  unfolding alloc
  alloc-Taken zero j f t h lt e enough = absurd (omega arith)
  alloc-Taken (suc fuel) j f t h lt e enough = elim (Option-cases (slot t t.fd_slot)) [
    | inl here ↦ (t.fd_slot, rw (here, alloc), h, here)
    | inr (g, here) ↦
        let other : t.fd_slot ≢ j = λ same.
          let clash : slot t t.fd_slot ≡ none = rw same e in some_not_none g (sym here ∙ clash) in
        let (lt', less) = rounds_next (length t.fds) t.fd_slot j h lt other in
        rw (here, alloc)
          (alloc-Taken fuel j f (record t { fd_slot = (1 + t.fd_slot) % length t.fds }) lt' lt e
            (omega arith))
  ]

  take_slot-IsFiles :
      (f : F) (t : Files F) (i : ℕ)
      → IsFiles t
      → i < length t.fds
      → slot t i ≡ none
      → IsFiles
          (record t { fds = set t.fds i (some f); num_open_fds = t.num_open_fds + 1; fd_slot = i })
  take_slot-IsFiles f t i p lt e = record {
    count = omega (arith, used-set-some t.fds i f lt e, p.count);
    in_range = omega (arith, length-set t.fds i (some f));
  }

  -- A descriptor for a file that is opened: one that was free, below the size of the table. The file
  -- is behind it and the others stay as they were.
  pub record Opened (f : F) (t : Files F) (r : Option (FdResult ℕ × Files F)) : Type 0 where
    pub fd : ℕ
    pub after : Files F
    pub returns : r ≡ some (ok fd, after)
    pub in_table : fd < length t.fds
    pub was_free : fetch_file fd t ≡ none
    pub behind : fetch_file fd after ≡ some f
    pub others : (g : ℕ) → fd ≢ g → fetch_file g after ≡ fetch_file g t
    pub keeps : IsFiles after
    pub size : length after.fds ≡ length t.fds

  opened-Opened :
      (f : F) (t : Files F)
      → IsFiles t
      → (r : Option (ℕ × Files F)) → Taken f t r
      → Opened f t (opened r t)
  unfolding fetch_file
  opened-Opened f t p r (i, e, lt, empty) =
      let inside : ltb i (length t.fds) ≡ true = ground arith in
      record {
        fd = i;
        after = record t {
          fds = set t.fds i (some f);
          num_open_fds = t.num_open_fds + 1;
          fd_slot = i;
        };
        returns = rw e;
        in_table = lt;
        was_free = rw (inside, empty);
        behind = rw (length-set t.fds i (some f), inside, get_or-set_self t.fds i (some f) none lt);
        others = λ g other.
            rw (length-set t.fds i (some f), get_or-set_ne t.fds i g (some f) none other);
        keeps = take_slot-IsFiles f t i p lt empty;
        size = length-set t.fds i (some f);
      }

  -- Alloc finds a slot within as many rounds as the table has slots.
  pub alloc-Taken_within :
      (fuel : ℕ) (f : F) (t : Files F)
      → IsFiles t
      → t.num_open_fds < length t.fds
      → length t.fds ≤ fuel
      → Taken f t (alloc fuel f t)
  alloc-Taken_within fuel f t p room enough =
      let (j, lt, e) = free_slot t.fds (omega (arith, p.count)) in
      alloc-Taken fuel j f t p.in_range lt e
        (omega (arith, rounds_below (length t.fds) t.fd_slot j p.in_range lt))

  -- With less than the maximum of files open, opening one more ends, and gives it a descriptor that
  -- was free, below the maximum, with the file behind it and the other descriptors as they were.
  pub open_file-Opened :
      (fuel : ℕ) (f : F) (t : Files F)
      → IsFiles t
      → t.num_open_fds < length t.fds
      → length t.fds ≤ fuel
      → Opened f t (open_file fuel f t)
  unfolding open_file
  open_file-Opened fuel f t p room enough =
      let room' : leb (length t.fds) t.num_open_fds ≡ false = ground arith in
      rw room' (opened-Opened f t p (alloc fuel f t) (alloc-Taken_within fuel f t p room enough))
