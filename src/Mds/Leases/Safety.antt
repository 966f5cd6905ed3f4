-- ===== src/Mds/Leases/Safety.antt =====
-- What holds of the lease of one entry and of the times that clients were given for it, and that the
-- steps of Lookup and Uperm keep it.
use deltafs.Prelude.{
  ℕ, ◌+◌, ◌≡◌, ◌≢◌, ◌≤◌, ◌<◌, refl, ◌⊎◌, inl, inr, none, some, Option, List, [], ◌∷◌, All,
  Bool-cases, arith, ltb,
}
use deltafs.Mds.Types.{u64_mod, DirId}
use deltafs.Mds.Server.{Lease, lease_free, lease_shared, lease_locked}
use deltafs.Mds.Leases.Issue.{
  Issued, no_lease, not_extended, extended, opened, shared_until, LeaseState-cases,
}

-- How long clients may hold what they were given under a lease.
abbrev pub hold : Option Lease → ℕ
hold none = 0
hold (some l) = elim l.state [ lease_free ↦ 0 | lease_shared ↦ l.due | lease_locked ↦ l.due ]

abbrev pub Within : ℕ → Option Lease → Type 0
Within end none = Unit {0}
Within end (some l) = l.due ≤ end

-- A time that a client was given is over, or the lease runs as long.
abbrev pub Covered : ℕ → Option Lease → ℕ × ℕ → Type 0
Covered now o (seq, due) = (due ≤ now) ⊎ (due ≤ hold o)

-- What is older than the last change ends at its publication.
abbrev pub Retired : ℕ → ℕ → ℕ × ℕ → Type 0
Retired changed published (seq, due) = seq < changed → due ≤ published

module _ (dur : ℕ) where
  -- Calls that began before the last change was published are over, or find a lease of its version.
  abbrev pub Guarded : ℕ → ℕ → ℕ → Option Lease → Type 0
  Guarded now changed published o =
      (changed ≡ 0)
      ⊎ ((published + dur ≤ now)
          ⊎ ((l : Lease) × (o ≡ some l) × (changed ≤ l.seq) × (published + dur ≤ l.due)))

  pub record IsSafe (now changed published : ℕ) (o : Option Lease) (granted : List (ℕ × ℕ))
      : Type 0 where
    pub limit : now + dur < u64_mod
    pub order : published ≤ now
    pub within : Within (now + dur) o
    pub guarded : Guarded now changed published o
    pub covered : All (Covered now o) granted
    pub retired : All (Retired changed published) granted

  pub All-Covered :
      (now now' : ℕ) (o o' : Option Lease) (gs : List (ℕ × ℕ))
      → ((due : ℕ) → (due ≤ now) ⊎ (due ≤ hold o) → (due ≤ now') ⊎ (due ≤ hold o'))
      → All (Covered now o) gs
      → All (Covered now' o') gs
  All-Covered now now' o o' [] f a = tt
  All-Covered now now' o o' ((seq, due) ∷ gs) f a = (f due a.0, All-Covered now now' o o' gs f a.1)

  pub All-Retired :
      (now changed : ℕ) (o : Option Lease) (gs : List (ℕ × ℕ))
      → hold o ≤ now
      → All (Covered now o) gs
      → All (Retired changed now) gs
  All-Retired now changed o [] h a = tt
  All-Retired now changed o ((seq, due) ∷ gs) h a =
      ((λ e. elim a.0 [ inl p ↦ p | inr p ↦ omega arith ]), All-Retired now changed o gs h a.1)

  Guarded-wait :
      (now now' changed published : ℕ) (o : Option Lease)
      → now ≤ now'
      → Guarded now changed published o
      → Guarded now' changed published o
  Guarded-wait now now' c p o h (inl e) = inl e
  Guarded-wait now now' c p o h (inr (inl e)) = inr (inl (omega arith))
  Guarded-wait now now' c p o h (inr (inr e)) = inr (inr e)

  Within-wait : (e e' : ℕ) (o : Option Lease) → e ≤ e' → Within e o → Within e' o
  Within-wait e e' none h w = tt
  Within-wait e e' (some l) h w = omega arith

  pub IsSafe-wait :
      (now now' c p : ℕ) (o : Option Lease) (gs : List (ℕ × ℕ))
      → now ≤ now'
      → now' + dur < u64_mod
      → IsSafe now c p o gs
      → IsSafe now' c p o gs
  IsSafe-wait now now' c p o gs h l s = record {
    limit = l;
    order = let e = s.order in omega arith;
    within = Within-wait (now + dur) (now' + dur) o (omega arith) s.within;
    guarded = Guarded-wait now now' c p o h s.guarded;
    covered =
        All-Covered now now' o o gs (λ due q. elim q [ inl e ↦ inl (omega arith) | inr e ↦ inr e ])
          s.covered;
    retired = s.retired;
  }

  -- A call that gets a lease has seen the last change, since it ran for less than a lease.
  not_stale :
      (now start seq c p : ℕ) (o : Option Lease)
      → now < start + dur
      → (seq < c → start ≤ p)
      → ((l : Lease) → o ≡ some l → l.seq ≤ seq)
      → Guarded now c p o
      → c ≤ seq
  not_stale now start seq c p o f r v (inl e) = omega arith
  not_stale now start seq c p o f r v (inr (inl e)) = elim (Bool-cases (ltb seq c)) [
    | inl y ↦ let lt : seq < c = ground arith in let le = r lt in omega arith
    | inr n ↦ ground arith
  ]
  not_stale now start seq c p o f r v (inr (inr (l, e, m, g))) = let q = v l e in omega arith

  pub hold_shared : (l : Lease) → l.state ≢ lease_free → hold (some l) ≡ l.due
  hold_shared l n = elim (LeaseState-cases l.state) [
    | inl e ↦ absurd (n e)
    | inr (inl e) ↦ ground arith
    | inr (inr e) ↦ ground arith
  ]

  hold-Within : (end : ℕ) (o : Option Lease) → Within end o → hold o ≤ end
  hold-Within end none w = omega arith
  hold-Within end (some l) w = elim (LeaseState-cases l.state) [
    | inl e ↦ ground arith
    | inr (inl e) ↦ ground arith
    | inr (inr e) ↦ ground arith
  ]

  grant-IsSafe :
      (now c p seq due : ℕ) (o o' : Option Lease) (gs : List (ℕ × ℕ))
      → Within (now + dur) o'
      → Guarded now c p o'
      → hold o ≤ hold o'
      → due ≤ hold o'
      → (c ≤ seq ⊎ (due ≤ 0))
      → IsSafe now c p o gs
      → IsSafe now c p o' ((seq, due) ∷ gs)
  grant-IsSafe now c p seq due o o' gs w g m h v s = record {
    limit = s.limit;
    order = s.order;
    within = w;
    guarded = g;
    covered = (
      inr h,
      All-Covered now now o o' gs (λ k q. elim q [ inl e ↦ inl e | inr e ↦ inr (omega arith) ])
          s.covered,
    );
    retired = ((λ e. elim v [ inl u ↦ omega arith | inr u ↦ omega arith ]), s.retired);
  }

  Guarded-renew :
      (now c p : ℕ) (o : Option Lease) (m : Lease)
      → p ≤ now
      → ((l : Lease) → o ≡ some l → l.seq ≤ m.seq)
      → m.due ≡ now + dur
      → Guarded now c p o
      → Guarded now c p (some m)
  Guarded-renew now c p o m h q e (inl z) = inl z
  Guarded-renew now c p o m h q e (inr (inl z)) = inr (inl z)
  Guarded-renew now c p o m h q e (inr (inr (l, f, a, b))) =
      let n = q l f in inr (inr (m, refl, omega arith, omega arith))

  pub Issued-IsSafe :
      (now start c p seq due : ℕ) (id : DirId) (o o' : Option Lease) (t : ℕ) (gs : List (ℕ × ℕ))
      → now < start + dur
      → (seq < c → start ≤ p)
      → due ≡ now + dur
      → Issued id seq due o o' t
      → IsSafe now c p o gs
      → IsSafe now c p o' ((seq, t) ∷ gs)
  Issued-IsSafe now start c p seq due id o _ _ gs f r e (no_lease _) s =
      grant-IsSafe now c p seq 0 o o gs s.within s.guarded (omega arith) (omega arith)
        (inr (omega arith)) s
  Issued-IsSafe now start c p seq due id _ _ _ gs f r e (not_extended l q n) s =
      let o = some l in
      let same : hold o ≡ l.due = hold_shared l (λ z. cc) in
      grant-IsSafe now c p seq l.due o o gs s.within s.guarded (omega arith) (omega arith)
        (inl (not_stale now start seq c p o f r (λ k z. ground arith) s.guarded)) s
  Issued-IsSafe now start c p seq due id _ _ _ gs f r e (extended l q n) s =
      let o = some l in
      let top = hold-Within (now + dur) o s.within in
      grant-IsSafe now c p seq due o (some (shared_until due l)) gs (omega arith)
        (Guarded-renew now c p o (shared_until due l) s.order (λ k z. ground arith) e s.guarded)
        (omega arith) (omega arith)
        (inl (not_stale now start seq c p o f r (λ k z. ground arith) s.guarded)) s
  Issued-IsSafe now start c p seq due id _ _ _ gs f r e (opened l q) s =
      grant-IsSafe now c p seq due none (some (shared_until due l)) gs (omega arith)
        (Guarded-renew now c p none (shared_until due l) s.order (λ k z. absurd (cc)) e s.guarded)
        (omega arith) (omega arith)
        (inl (not_stale now start seq c p none f r (λ k z. absurd (cc)) s.guarded)) s
