-- ===== src/Mds/Leases/Issue.antt =====
-- How Lookup changes the lease of its entry.
use deltafs.Prelude.{
  ℕ, ◌≡◌, ◌≢◌, ◌≤◌, ◌<◌, refl, ◌∙◌, ◌⊎◌, inl, inr, none, some, Option, Option-cases, Bool-cases,
  arith, leb,
}
use deltafs.Mds.Types.{Ext, DirId}
use deltafs.Mds.Table.{Inserted, inserted, exists_already, no_buffers}
use deltafs.Mds.Server.{
  Config, Srv, Lease, LeaseState, lease_free, lease_shared, lease_locked, LeaseKey, Answers,
  find_lease, put_lease, insert_lease,
}
use deltafs.Mds.Handler.{add64, change_dir}
use deltafs.Mds.Read.{issue_lease, extend_lease, new_lease, with_new, count_lease}
use deltafs.Mds.Leases.Find.{find_lease-put_lease, find_lease-change_dir, find_lease-insert_lease}

pub LeaseState-cases :
    (s : LeaseState) → (s ≡ lease_free) ⊎ ((s ≡ lease_shared) ⊎ (s ≡ lease_locked))
LeaseState-cases lease_free = inl refl
LeaseState-cases lease_shared = inr (inl refl)
LeaseState-cases lease_locked = inr (inr refl)

abbrev pub shared_until : ℕ → Lease → Lease
shared_until due l = record l { state = lease_shared; due = due }

-- What Lookup makes of the lease, for data of version `seq`, where `due` is the time of a new lease:
-- the lease before and after, and the time until which the client has it.
pub data Issued (id : DirId) (seq due : ℕ) : Option Lease → Option Lease → ℕ → Type 0 where
  no_lease : (o : Option Lease) → Issued id seq due o o 0
  not_extended :
      (l : Lease) → l.seq ≤ seq → l.state ≡ lease_locked → Issued id seq due (some l) (some l) l.due
  extended :
      (l : Lease)
      → l.seq ≤ seq
      → l.state ≢ lease_locked
      → Issued id seq due (some l) (some (shared_until due l)) due
  opened : (l : Lease) → l.seq ≡ 0 → Issued id seq due none (some (shared_until due l)) due

module _ (x : Ext) where
  abbrev IssuedBy : LeaseKey → ℕ → ℕ → Option Lease → ℕ × Srv x → Type 0
  IssuedBy k seq due o r = Issued k.0 seq due o (find_lease k r.1) r.0

  extend_lease_shared :
      (cfg : Config) (k : LeaseKey) (seq end : ℕ) (l : Lease) (s : Srv x)
      → l.seq ≤ seq
      → l.state ≢ lease_locked
      → let due = add64 end cfg.lease_duration in
        extend_lease x cfg k seq end l s ≡ (due, put_lease k (shared_until due l) s)
  unfolding extend_lease
  extend_lease_shared cfg k seq end l s h n = elim (LeaseState-cases l.state) [
    | inl e ↦ ground arith
    | inr (inl e) ↦ ground arith
    | inr (inr e) ↦ absurd (n e)
  ]

  extend_lease_locked :
      (cfg : Config) (k : LeaseKey) (seq end : ℕ) (l : Lease) (s : Srv x)
      → l.seq ≤ seq
      → l.state ≡ lease_locked
      → extend_lease x cfg k seq end l s ≡ (l.due, s)
  unfolding extend_lease
  extend_lease_locked cfg k seq end l s h n = ground arith

  extend_lease_newer :
      (cfg : Config) (k : LeaseKey) (seq end : ℕ) (l : Lease) (s : Srv x)
      → seq < l.seq
      → extend_lease x cfg k seq end l s ≡ (0, s)
  unfolding extend_lease
  extend_lease_newer cfg k seq end l s h = ground arith

  is_locked-cases : (l : Lease) → (l.state ≡ lease_locked) ⊎ (l.state ≢ lease_locked)
  is_locked-cases l = elim (LeaseState-cases l.state) [
    | inl e ↦ inr (λ p. cc)
    | inr (inl e) ↦ inr (λ p. cc)
    | inr (inr e) ↦ inl e
  ]

  extend_lease-Issued :
      (cfg : Config) (k : LeaseKey) (seq end : ℕ) (l : Lease) (s : Srv x)
      → find_lease k s ≡ some l
      → IssuedBy k seq (add64 end cfg.lease_duration) (some l) (extend_lease x cfg k seq end l s)
  extend_lease-Issued cfg k seq end l s h =
      let due = add64 end cfg.lease_duration in
      elim (Bool-cases (leb l.seq seq)) [
        | inl old ↦
            let le : l.seq ≤ seq = ground arith in
            elim (is_locked-cases l) [
              | inl e ↦ rw (extend_lease_locked cfg k seq end l s le e, h) (not_extended l le e)
              | inr n ↦
                  rw
                    (
                      extend_lease_shared cfg k seq end l s le n,
                      find_lease-put_lease {x = x} k {l = l} (shared_until due l) s h,
                    )
                    (extended l le n)
            ]
        | inr new ↦ rw (extend_lease_newer cfg k seq end l s (ground arith), h) (no_lease (some l))
      ]

  with_new-Issued :
      (cfg : Config) (a : Answers) (k : LeaseKey) (seq : ℕ) (s : Srv x) (r : Inserted (Srv x))
      → find_lease k s ≡ none
      → insert_lease a a.end k (new_lease x k.0) s ≡ r
      → IssuedBy k seq (add64 a.end cfg.lease_duration) none (with_new x cfg k seq a.end r s)
  with_new-Issued cfg a k seq s exists_already h e = rw h (no_lease none)
  with_new-Issued cfg a k seq s no_buffers h e = rw h (no_lease none)
  with_new-Issued cfg a k seq s (inserted t) h e =
      let due = add64 a.end cfg.lease_duration in
      let l = new_lease x k.0 in
      let u = change_dir x (count_lease x) k.0 t in
      let found : find_lease k u ≡ some l =
        find_lease-change_dir k (count_lease x) k.0 t ∙ find_lease-insert_lease a a.end k l s t e in
      rw
        (
          extend_lease_shared cfg k seq a.end l u (omega arith) (λ p. cc),
          find_lease-put_lease {x = x} k {l = l} (shared_until due l) u found,
        )
        (opened l refl)

  pub issue_lease-Issued :
      (cfg : Config) (a : Answers) (k : LeaseKey) (seq : ℕ) (s : Srv x)
      → IssuedBy k seq
          (add64 a.end cfg.lease_duration)
          (find_lease k s)
          (issue_lease x cfg a k seq s)
  unfolding issue_lease
  issue_lease-Issued cfg a k seq s = elim (Option-cases (find_lease k s)) [
    | inl e ↦ rw (e, issue_lease) (with_new-Issued cfg a k seq s _ e refl)
    | inr (l, e) ↦ rw (e, issue_lease) (extend_lease-Issued cfg k seq a.end l s e)
  ]
