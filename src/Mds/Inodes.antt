-- ===== src/Mds/Inodes.antt =====
-- Inode numbers under any interleaving of creations: NextIno and TryReuseIno of
-- src/libdeltafs/mds_srv.cc, each under the mutex.
use deltafs.Prelude.{
  ℕ, ◌+◌, ◌-◌, ◌*◌, ◌^◌, ◌≤◌, ◌<◌, ◌≡◌, ◌≢◌, ◌==◌, List, [], ◌∷◌, All, if◌then◌else◌, arith,
  Bool-cases, inl, inr,
}
use deltafs.Mds.Types.{Ext, u64_mod}
use deltafs.Mds.Server.{Config, Srv, init_srv, next_ino, try_reuse_ino}

-- The numbers that calls in progress hold or entries bear.
pub record Usage (x : Ext) : Type 0 where
  pub srv : Srv x
  pub used : List ℕ

abbrev pub drop_ino : ℕ → List ℕ → List ℕ
drop_ino i [] = []
drop_ino i (j ∷ js) = if j == i then js else j ∷ drop_ino i js

-- `i` is in the list.
abbrev pub Uses : ℕ → List ℕ → Type 0
Uses i [] = ⊥
Uses i (j ∷ js) = (j ≡ i → ⊥) → Uses i js

abbrev pub Distinct : List ℕ → Type 0
Distinct [] = Unit {0}
Distinct (j ∷ js) = All (λ k. k ≢ j) js × Distinct js

-- A call takes a number, or gives back one that it holds because it made no entry. Numbers of 64
-- bits are not used up.
pub data Step {x : Ext} (cfg : Config) : Usage x → Usage x → Type 0 where
  takes :
      (u : Usage x)
      → u.srv.ino + 1 < u64_mod
      → Step cfg u (record { srv = (next_ino cfg u.srv).1; used = (next_ino cfg u.srv).0 ∷ u.used })
  gives_back :
      (u : Usage x) (i : ℕ)
      → Uses i u.used
      → Step cfg u (record { srv = try_reuse_ino i u.srv; used = drop_ino i u.used })

pub data Reach {x : Ext} (cfg : Config) (u : Usage x) : Usage x → Type 0 where
  here : Reach cfg u u
  next : {v w : Usage x} → Reach cfg u v → Step cfg v w → Reach cfg u w

abbrev Within : ℕ → ℕ → ℕ → Type 0
Within base top k = (base < k) × (k ≤ top)

record Inv (base n : ℕ) (js : List ℕ) : Type 0 where
  from : base ≤ n
  bounded : n < u64_mod
  within : All (Within base n) js
  distinct : Distinct js

Within-mono : (base n m : ℕ) (js : List ℕ) → n ≤ m → All (Within base n) js → All (Within base m) js
Within-mono base n m [] h a = tt
Within-mono base n m (j ∷ js) h a = ((a.0.0, omega arith), Within-mono base n m js h a.1)

above-ne : (base n i : ℕ) (js : List ℕ) → n < i → All (Within base n) js → All (λ k. k ≢ i) js
above-ne base n i [] h a = tt
above-ne base n i (j ∷ js) h a = ((λ e. omega arith), above-ne base n i js h a.1)

drop_ino-All : (P : ℕ → Type 0) (i : ℕ) (js : List ℕ) → All P js → All P (drop_ino i js)
drop_ino-All P i [] a = tt
drop_ino-All P i (j ∷ js) a = elim (Bool-cases (j == i)) [
  | inl e ↦ rw e a.1
  | inr e ↦ rw e (a.0, drop_ino-All P i js a.1)
]

drop_ino-Distinct : (i : ℕ) (js : List ℕ) → Distinct js → Distinct (drop_ino i js)
drop_ino-Distinct i [] d = tt
drop_ino-Distinct i (j ∷ js) d = elim (Bool-cases (j == i)) [
  | inl e ↦ rw e d.1
  | inr e ↦ rw e (drop_ino-All (λ k. k ≢ j) i js d.0, drop_ino-Distinct i js d.1)
]

-- Among distinct numbers up to `i`, those but `i` itself are below it.
below_top :
    (base i : ℕ) (js : List ℕ)
    → All (Within base i) js
    → All (λ k. k ≢ i) js
    → All (Within base (i - 1)) js
below_top base i [] a n = tt
below_top base i (j ∷ js) a n = ((a.0.0, omega arith), below_top base i js a.1 n.1)

drop_ino-below :
    (base i : ℕ) (js : List ℕ)
    → All (Within base i) js
    → Distinct js
    → All (Within base (i - 1)) (drop_ino i js)
drop_ino-below base i [] a d = tt
drop_ino-below base i (j ∷ js) a d = elim (Bool-cases (j == i)) [
  | inl e ↦ let same : j ≡ i = ground arith in rw e (below_top base i js a.1 (rw same at d.0))
  | inr e ↦ rw e ((a.0.0, ground arith), drop_ino-below base i js a.1 d.1)
]

Uses-Within :
    (base top i : ℕ) (js : List ℕ) → Uses i js → All (Within base top) js → Within base top i
Uses-Within base top i [] h a = absurd h
Uses-Within base top i (j ∷ js) h a = elim (Bool-cases (j == i)) [
  | inl e ↦ ground arith
  | inr e ↦ Uses-Within base top i js (h (λ p. ground arith)) a.1
]

take-Inv :
    (base n : ℕ) (js : List ℕ) → n + 1 < u64_mod → Inv base n js → Inv base (n + 1) ((n + 1) ∷ js)
take-Inv base n js h i = record {
  from = omega arith;
  bounded = h;
  within = ((omega arith, omega arith), Within-mono base n (n + 1) js (omega arith) i.within);
  distinct = (above-ne base n (n + 1) js (omega arith) i.within, i.distinct);
}

give_back-Inv :
    (base n k : ℕ) (js : List ℕ)
    → Uses k js
    → Inv base n js
    → Inv base (if k == n then n - 1 else n) (drop_ino k js)
give_back-Inv base n k js h i = elim (Bool-cases (k == n)) [
  | inl e ↦
      let held = Uses-Within base n k js h i.within in
      let same : n ≡ k = ground arith in
      rw e (
        rw same (record {
          from = omega arith;
          bounded = omega arith;
          within = drop_ino-below base k js (rw same at i.within) i.distinct;
          distinct = drop_ino-Distinct k js i.distinct;
        }))
  | inr e ↦ rw e (record {
    from = i.from;
    bounded = i.bounded;
    within = drop_ino-All (Within base n) k js i.within;
    distinct = drop_ino-Distinct k js i.distinct;
  })
]

module _ {x : Ext} where
  next_ino_lem :
      (cfg : Config) (s : Srv x)
      → s.ino + 1 < u64_mod
      → ((next_ino cfg s).0 ≡ s.ino + 1) × ((next_ino cfg s).1.ino ≡ s.ino + 1)
  unfolding next_ino
  next_ino_lem cfg s h = omega arith

  try_reuse_ino_lem :
      (k : ℕ) (s : Srv x)
      → 0 < k
      → s.ino < u64_mod
      → (try_reuse_ino k s).ino ≡ (if k == s.ino then s.ino - 1 else s.ino)
  unfolding try_reuse_ino
  try_reuse_ino_lem k s h b = ground arith

  Step-Inv :
      {cfg : Config} {base : ℕ} {u v : Usage x}
      → Step cfg u v
      → Inv base u.srv.ino u.used
      → Inv base v.srv.ino v.used
  Step-Inv {cfg} {base} (takes u h) i =
      let e = next_ino_lem cfg u.srv h in rw (e.0, e.1) (take-Inv base u.srv.ino u.used h i)
  Step-Inv {cfg} {base} (gives_back u k h) i =
      let held = Uses-Within base u.srv.ino k u.used h i.within in
      rw (try_reuse_ino_lem k u.srv (omega arith) i.bounded)
        (give_back-Inv base u.srv.ino k u.used h i)

  Reach-Inv :
      {cfg : Config} {base : ℕ} {u v : Usage x}
      → Reach cfg u v
      → Inv base u.srv.ino u.used
      → Inv base v.srv.ino v.used
  Reach-Inv here i = i
  Reach-Inv (next r s) i = Step-Inv s (Reach-Inv r i)

  abbrev pub fresh : (cfg : Config) → x.Store → Usage x
  fresh cfg store = record { srv = init_srv x cfg store; used = [] }

  -- However creations interleave on a new server whose id has 32 bits, no inode number is used twice
  -- at a time, and all lie above the base of the server's range and at most at the last number
  -- allocated, as long as the 64-bit numbers are not used up.
  pub Reach-Distinct :
      (cfg : Config) (store : x.Store) (u : Usage x)
      → cfg.srv_id < 2 ^ 32
      → Reach cfg (fresh cfg store) u
      → Distinct u.used × All (λ k. (cfg.srv_id * 2 ^ 32 < k) × (k ≤ u.srv.ino)) u.used
  unfolding init_srv
  Reach-Distinct cfg store u h r =
      let start : Inv (cfg.srv_id * 2 ^ 32) (init_srv x cfg store).ino [] = record {
        from = omega arith;
        bounded = omega arith;
        within = tt;
        distinct = tt;
      } in
      let i = Reach-Inv r start in (i.distinct, i.within)
