-- ===== src/Mds/Leases/Change.antt =====
-- That Uperm, and the loss of a lease that is over, keep what holds of the lease of an entry.
use deltafs.Prelude.{
  ℕ, ◌+◌, ◌≡◌, ◌≢◌, ◌≤◌, refl, ◌⊎◌, inl, inr, Bool, false, none, some, Option, List, arith,
}
use deltafs.Mds.Server.{Lease, lease_shared, lease_locked, busy}
use deltafs.Mds.Leases.Issue.{LeaseState-cases}
use deltafs.Mds.Leases.Block.{Blocked, sleeps, expired, unshared, made, full, locked_lease}
use deltafs.Mds.Leases.Safety.{hold, Within, Guarded, IsSafe, All-Covered, All-Retired, hold_shared}

-- No other writer has locked the lease.
abbrev pub NotLocked : Option Lease → Type 0
NotLocked none = Unit {0}
NotLocked (some l) = l.state ≢ lease_locked

module _ (dur : ℕ) where
  -- The lease is another one of the same version, and holds as long.
  recast-IsSafe :
      (now c p : ℕ) (o o' : Option Lease) (gs : List (ℕ × ℕ))
      → Within (now + dur) o'
      → Guarded dur now c p o'
      → hold o ≤ hold o' ⊎ (hold o ≤ now)
      → IsSafe dur now c p o gs
      → IsSafe dur now c p o' gs
  recast-IsSafe now c p o o' gs w g h s = record {
    limit = s.limit;
    order = s.order;
    within = w;
    guarded = g;
    covered =
        All-Covered dur now now o o' gs
          (λ k q. elim q [
            | inl e ↦ inl e
            | inr e ↦ elim h [ inl m ↦ inr (omega arith) | inr m ↦ inl (omega arith) ]
          ])
          s.covered;
    retired = s.retired;
  }

  Guarded-locked :
      (now c p : ℕ) (l : Lease)
      → Guarded dur now c p (some l)
      → Guarded dur now c p (some (locked_lease l))
  Guarded-locked now c p l (inl e) = inl e
  Guarded-locked now c p l (inr (inl e)) = inr (inl e)
  Guarded-locked now c p l (inr (inr (m, e, a, b))) =
      inr (inr (locked_lease l, refl, ground arith, ground arith))

  Guarded-none : (now c p : ℕ) (o : Option Lease) → Guarded dur now c p none → Guarded dur now c p o
  Guarded-none now c p o (inl e) = inl e
  Guarded-none now c p o (inr (inl e)) = inr (inl e)
  Guarded-none now c p o (inr (inr (m, e, a, b))) = absurd (cc)

  pub Blocked-IsSafe :
      (now c p : ℕ) (o o' : Option Lease) (b : Bool) (gs : List (ℕ × ℕ))
      → Blocked now o o' b
      → IsSafe dur now c p o gs
      → IsSafe dur now c p o' gs
  Blocked-IsSafe now c p _ _ _ gs (sleeps l e h) s =
      let same = hold_shared dur l (λ z. cc) in
      recast-IsSafe now c p (some l) (some (locked_lease l)) gs s.within
        (Guarded-locked now c p l s.guarded) (inl (omega arith)) s
  Blocked-IsSafe now c p _ _ _ gs (expired l h) s = s
  Blocked-IsSafe now c p _ _ _ gs (unshared l n) s = s
  Blocked-IsSafe now c p _ _ _ gs (made l z) s =
      recast-IsSafe now c p none (some l) gs (omega arith) (Guarded-none now c p (some l) s.guarded)
        (inr (omega arith)) s
  Blocked-IsSafe now c p _ _ _ gs full s = s

  hold_over : (now : ℕ) (l : Lease) → l.due ≤ now → hold (some l) ≤ now
  hold_over now l h = elim (LeaseState-cases l.state) [
    | inl e ↦ ground arith
    | inr (inl e) ↦ ground arith
    | inr (inr e) ↦ ground arith
  ]

  hold_free : (l : Lease) → l.state ≢ lease_shared → l.state ≢ lease_locked → hold (some l) ≡ 0
  hold_free l n m = elim (LeaseState-cases l.state) [
    | inl e ↦ ground arith
    | inr (inl e) ↦ absurd (n e)
    | inr (inr e) ↦ absurd (m e)
  ]

  -- Where Uperm does not sleep, no client holds anything any more.
  pub Blocked-over :
      (now : ℕ) (o o' : Option Lease) (b : Bool)
      → Blocked now o o' b
      → b ≡ false
      → NotLocked o
      → hold o ≤ now
  Blocked-over now _ _ _ (sleeps l e h) f n = absurd (cc)
  Blocked-over now _ _ _ (expired l h) f n = hold_over now l h
  Blocked-over now _ _ _ (unshared l m) f n = let e = hold_free l m n in omega arith
  Blocked-over now _ _ _ (made l z) f n = omega arith
  Blocked-over now _ _ _ full f n = omega arith

  -- The publication: all that clients were given is over by now.
  pub publish-IsSafe :
      (now c p : ℕ) (o : Option Lease) (l : Lease) (gs : List (ℕ × ℕ))
      → hold o ≤ now
      → l.due ≡ now + dur
      → IsSafe dur now c p o gs
      → IsSafe dur now l.seq now (some l) gs
  publish-IsSafe now c p o l gs h e s = record {
    limit = s.limit;
    order = omega arith;
    within = omega arith;
    guarded = inr (inr (l, refl, omega arith, omega arith));
    covered =
        All-Covered dur now now o (some l) gs
          (λ k q. elim q [ inl u ↦ inl u | inr u ↦ inl (omega arith) ]) s.covered;
    retired = All-Retired dur now l.seq o gs h s.covered;
  }

  not_busy : (now : ℕ) (l : Lease) → busy now l ≡ false → l.due ≤ now
  unfolding busy
  not_busy now l h = elim (LeaseState-cases l.state) [
    | inl e ↦ ground arith
    | inr (inl e) ↦ ground arith
    | inr (inr e) ↦ ground arith
  ]

  -- A lease that is not busy may leave the table.
  pub lose-IsSafe :
      (now c p : ℕ) (l : Lease) (gs : List (ℕ × ℕ))
      → busy now l ≡ false
      → IsSafe dur now c p (some l) gs
      → IsSafe dur now c p none gs
  lose-IsSafe now c p l gs h s =
      let over = not_busy now l h in
      recast-IsSafe now c p (some l) none gs tt
        (elim s.guarded [
          | inl e ↦ inl e
          | inr (inl e) ↦ inr (inl e)
          | inr (inr (m, e, a, b)) ↦ inr (inl (ground arith))
        ])
        (inr (hold_over now l over)) s
