-- ===== src/Mds/Leases/Block.antt =====
-- How Uperm changes the lease of its entry, before its sleep and after.
use deltafs.Prelude.{
  ℕ, ◌≡◌, ◌≢◌, ◌≤◌, ◌<◌, refl, ◌∙◌, inl, inr, Bool, true, false, none, some, Option, Option-cases,
  Bool-cases, arith, ltb,
}
use deltafs.Mds.Types.{Ext}
use deltafs.Mds.Table.{Inserted, inserted, exists_already, no_buffers}
use deltafs.Mds.Server.{
  Config, Srv, Dir, Lease, lease_shared, lease_locked, LeaseKey, Answers, find_lease, put_lease,
  insert_lease, find_dir, put_dir,
}
use deltafs.Mds.Handler.{add64}
use deltafs.Mds.Read.{new_lease, count_lease}
use deltafs.Mds.Perm.{
  Waits, block_readers, ensure_lease, lock_lease, install, publish, renewed, new_version,
}
use deltafs.Mds.Leases.Find.{
  find_lease-put_lease, find_lease-put_dir, find_lease-change_dir, find_lease-insert_lease,
}
use deltafs.Mds.Leases.Issue.{LeaseState-cases}

abbrev pub locked_lease : Lease → Lease
locked_lease l = record l { state = lease_locked }

-- What Uperm makes of the lease at the time `now`, and whether it has to sleep.
pub data Blocked (now : ℕ) : Option Lease → Option Lease → Bool → Type 0 where
  sleeps :
      (l : Lease)
      → l.state ≡ lease_shared
      → now < l.due
      → Blocked now (some l) (some (locked_lease l)) true
  expired : (l : Lease) → l.due ≤ now → Blocked now (some l) (some l) false
  unshared : (l : Lease) → l.state ≢ lease_shared → Blocked now (some l) (some l) false
  made : (l : Lease) → l.due ≡ 0 → Blocked now none (some l) false
  full : Blocked now none none false

module _ (x : Ext) where
  abbrev BlockedBy : LeaseKey → ℕ → Option Lease → Bool × Srv x → Type 0
  BlockedBy k now o r = Blocked now o (find_lease k r.1) r.0

  lock_lease_shared :
      (k : LeaseKey) (now : ℕ) (l : Lease) (s : Srv x)
      → l.state ≡ lease_shared
      → now < l.due
      → lock_lease x k now (some l) s ≡ (true, put_lease k (locked_lease l) s)
  unfolding lock_lease
  lock_lease_shared k now l s e h = ground arith

  lock_lease_expired :
      (k : LeaseKey) (now : ℕ) (l : Lease) (s : Srv x)
      → l.due ≤ now
      → lock_lease x k now (some l) s ≡ (false, s)
  unfolding lock_lease
  lock_lease_expired k now l s h = elim (LeaseState-cases l.state) [
    | inl e ↦ ground arith
    | inr (inl e) ↦ ground arith
    | inr (inr e) ↦ ground arith
  ]

  lock_lease_unshared :
      (k : LeaseKey) (now : ℕ) (l : Lease) (s : Srv x)
      → l.state ≢ lease_shared
      → lock_lease x k now (some l) s ≡ (false, s)
  unfolding lock_lease
  lock_lease_unshared k now l s n = elim (LeaseState-cases l.state) [
    | inl e ↦ ground arith
    | inr (inl e) ↦ absurd (n e)
    | inr (inr e) ↦ ground arith
  ]

  lock_lease-Blocked :
      (k : LeaseKey) (now : ℕ) (l : Lease) (s : Srv x)
      → find_lease k s ≡ some l
      → BlockedBy k now (some l) (lock_lease x k now (some l) s)
  lock_lease-Blocked k now l s h = elim (Bool-cases (ltb now l.due)) [
    | inr late ↦
        let le : l.due ≤ now = ground arith in
        rw (lock_lease_expired k now l s le, h) (expired l le)
    | inl early ↦ elim (LeaseState-cases l.state) [
      | inl e ↦
          let n : l.state ≢ lease_shared = λ p. cc in
          rw (lock_lease_unshared k now l s n, h) (unshared l n)
      | inr (inr e) ↦
          let n : l.state ≢ lease_shared = λ p. cc in
          rw (lock_lease_unshared k now l s n, h) (unshared l n)
      | inr (inl e) ↦
          let lt : now < l.due = ground arith in
          rw
            (
              lock_lease_shared k now l s e lt,
              find_lease-put_lease {x = x} k {l = l} (locked_lease l) s h,
            )
            (sleeps l e lt)
    ]
  ]

  installed-Blocked :
      (a : Answers) (k : LeaseKey) (now : ℕ) (s : Srv x) (r : Inserted (Srv x))
      → find_lease k s ≡ none
      → insert_lease a now k (new_lease x k.0) s ≡ r
      → let p = install x k r s in BlockedBy k now none (lock_lease x k now p.0 p.1)
  unfolding lock_lease
  installed-Blocked a k now s exists_already h e = rw h full
  installed-Blocked a k now s no_buffers h e = rw h full
  installed-Blocked a k now s (inserted t) h e =
      let found =
        find_lease-change_dir k (count_lease x) k.0 t
        ∙ find_lease-insert_lease a now k (new_lease x k.0) s t e in
      rw found (made (new_lease x k.0) refl)

  pub block_readers-Blocked :
      (a : Answers) (w : Waits) (k : LeaseKey) (now : ℕ) (s : Srv x)
      → BlockedBy k now (find_lease k s) (block_readers x a w k now s)
  unfolding block_readers ensure_lease
  block_readers-Blocked a w k now s = elim (Option-cases (find_lease k s)) [
    | inl e ↦ rw (e, block_readers, ensure_lease) (installed-Blocked _ k now s _ e refl)
    | inr (l, e) ↦ rw (e, block_readers, ensure_lease) (lock_lease-Blocked k now l s e)
  ]

  pub publish_lem :
      (cfg : Config) (k : LeaseKey) (now : ℕ) (s : Srv x) (d : Dir x) (l : Lease)
      → find_dir k.0 s ≡ some d
      → find_lease k s ≡ some l
      → find_lease k (publish x cfg k now s) ≡ some (renewed x cfg (add64 d.seq 1) now l)
  unfolding publish
  publish_lem cfg k now s d l hd hl =
      let m = renewed x cfg (add64 d.seq 1) now l in
      rw (hd, hl, publish)
        (find_lease-put_lease {x = x} k {l = l} m (put_dir k.0 (new_version x d) s)
          (find_lease-put_dir k k.0 (new_version x d) s ∙ hl))
