-- ===== src/Mds/Leases/Protocol.antt =====
-- The leases on one directory entry, under any interleaving of the parts of Lookup and Uperm
-- (src/libdeltafs/mds_srv.cc) that run under the mutex.
use deltafs.Prelude.{
  ℕ, ◌+◌, ◌≡◌, ◌≤◌, ◌<◌, refl, inl, inr, true, false, none, some, Option-cases, Bool-cases, List,
  [], ◌∷◌, All, arith, ltb,
}
use deltafs.Mds.Types.{Ext, u64_mod}
use deltafs.Mds.Table.{inserted, find}
use deltafs.Mds.Server.{
  Config, Srv, Dir, Lease, lease_locked, LeaseKey, Answers, find_lease, insert_lease, find_dir,
  busy, init_srv,
}
use deltafs.Mds.Handler.{sub64, add64}
use deltafs.Mds.Read.{issue_lease}
use deltafs.Mds.Perm.{Waits, block_readers, publish, renewed}
use deltafs.Mds.Leases.Find.{insert_lease_keeps}
use deltafs.Mds.Leases.Issue.{issue_lease-Issued}
use deltafs.Mds.Leases.Block.{block_readers-Blocked, publish_lem}
use deltafs.Mds.Leases.Safety.{IsSafe, Retired, hold, IsSafe-wait, Issued-IsSafe, hold_shared}
use deltafs.Mds.Leases.Change.{NotLocked, Blocked-IsSafe, Blocked-over, publish-IsSafe, lose-IsSafe}

-- A server at a time, the version and the time of the last change of the entry, and for each lease
-- that a client was given the version of its data and the time until which it runs.
pub record Watch (x : Ext) : Type 0 where
  pub srv : Srv x
  pub now : ℕ
  pub changed : ℕ
  pub published : ℕ
  pub granted : List (ℕ × ℕ)

module _ {x : Ext} (cfg : Config) (k : LeaseKey) where
  -- Where Uperm goes on: the version after the directory's.
  abbrev pub republish : Watch x → Srv x → Dir x → Watch x
  republish w t d = record w {
    srv = publish x cfg k w.now t;
    changed = add64 d.seq 1;
    published = w.now;
  }

  -- Where Lookup ends, for data of the version `seq`.
  abbrev pub looked_up : Watch x → Answers → ℕ → Watch x
  looked_up w a seq =
      let r = issue_lease x cfg a k seq w.srv in
      record w { srv = r.1; granted = (seq, r.0) ∷ w.granted }

  -- The clock does not reach the end of its range. A Lookup that saw a version before the last one
  -- began before that was published. One Uperm at a time works in a directory, and the lease that it
  -- made or found is there when it goes on.
  pub data Step : Watch x → Watch x → Type 0 where
    waits :
        (w : Watch x) (now : ℕ)
        → w.now ≤ now
        → now + cfg.lease_duration < u64_mod
        → Step w (record w { now = now })
    works_elsewhere :
        (w : Watch x) (t : Srv x)
        → find_lease k t ≡ find_lease k w.srv
        → Step w (record w { srv = t })
    loses :
        (w : Watch x) (a : Answers) (j : LeaseKey) (l : Lease) (t : Srv x)
        → insert_lease a w.now j l w.srv ≡ inserted t
        → find_lease k t ≡ none
        → Step w (record w { srv = t })
    looks_up :
        (w : Watch x) (a : Answers) (seq : ℕ)
        → a.end ≡ w.now
        → a.start ≤ a.end
        → ltb (sub64 a.end a.start) (sub64 cfg.lease_duration 10) ≡ true
        → (seq < w.changed → a.start ≤ w.published)
        → Step w (looked_up w a seq)
    blocks :
        (w : Watch x) (a : Answers) (v : Waits) (t : Srv x)
        → block_readers x a v k w.now w.srv ≡ (true, t)
        → Step w (record w { srv = t })
    publishes_at_once :
        (w : Watch x) (a : Answers) (v : Waits) (t : Srv x) (d : Dir x) (l : Lease)
        → block_readers x a v k w.now w.srv ≡ (false, t)
        → NotLocked (find_lease k w.srv)
        → find_dir k.0 t ≡ some d
        → find_lease k t ≡ some l
        → Step w (republish w t d)
    publishes_after_sleep :
        (w : Watch x) (d : Dir x) (l : Lease)
        → find_dir k.0 w.srv ≡ some d
        → find_lease k w.srv ≡ some l
        → l.state ≡ lease_locked
        → l.due ≤ w.now
        → Step w (republish w w.srv d)

  pub data Reach (w : Watch x) : Watch x → Type 0 where
    here : Reach w w
    next : {u v : Watch x} → Reach w u → Step u v → Reach w v

  abbrev Safe : Watch x → Type 0
  Safe w = IsSafe cfg.lease_duration w.now w.changed w.published (find_lease k w.srv) w.granted

  lost-IsSafe :
      (w : Watch x) (a : Answers) (j : LeaseKey) (m : Lease) (t : Srv x)
      → insert_lease a w.now j m w.srv ≡ inserted t
      → find_lease k t ≡ none
      → Safe w
      → Safe (record w { srv = t })
  lost-IsSafe w a j m t h n s = elim (Option-cases (find_lease k w.srv)) [
    | inl e ↦ rw n (rw e at s)
    | inr (l, e) ↦ elim (Bool-cases (busy w.now l)) [
      | inl b ↦ let stays = insert_lease_keeps a w.now k j l m w.srv t h e b in absurd (cc)
      | inr b ↦
          rw n
            (lose-IsSafe cfg.lease_duration w.now w.changed w.published l w.granted b (rw e at s))
    ]
  ]

  looked_up-IsSafe :
      (w : Watch x) (a : Answers) (seq : ℕ)
      → 10 ≤ cfg.lease_duration
      → a.end ≡ w.now
      → a.start ≤ a.end
      → ltb (sub64 a.end a.start) (sub64 cfg.lease_duration 10) ≡ true
      → (seq < w.changed → a.start ≤ w.published)
      → Safe w
      → Safe (looked_up w a seq)
  looked_up-IsSafe w a seq d e o f r s =
      let lim = s.limit in
      let short : sub64 a.end a.start < sub64 cfg.lease_duration 10 = ground arith in
      let soon : w.now < a.start + cfg.lease_duration = omega arith in
      let due : add64 a.end cfg.lease_duration ≡ w.now + cfg.lease_duration = omega arith in
      Issued-IsSafe cfg.lease_duration w.now a.start w.changed w.published seq _ k.0 _ _ _ w.granted
        soon r due (issue_lease-Issued x cfg a k seq w.srv) s

  republish-IsSafe :
      (w : Watch x) (t : Srv x) (d : Dir x) (l : Lease)
      → find_dir k.0 t ≡ some d
      → find_lease k t ≡ some l
      → hold (find_lease k w.srv) ≤ w.now
      → Safe w
      → Safe (republish w t d)
  republish-IsSafe w t d l hd hl h s =
      let lim = s.limit in
      let due : add64 w.now cfg.lease_duration ≡ w.now + cfg.lease_duration = omega arith in
      rw (publish_lem x cfg k w.now t d l hd hl) (
        publish-IsSafe cfg.lease_duration w.now w.changed w.published _
          (renewed x cfg (add64 d.seq 1) w.now l) w.granted h due s)

  Step-IsSafe : {u v : Watch x} → 10 ≤ cfg.lease_duration → Step u v → Safe u → Safe v
  Step-IsSafe d (waits w now h l) s =
      IsSafe-wait cfg.lease_duration w.now now w.changed w.published _ w.granted h l s
  Step-IsSafe d (works_elsewhere w t h) s = rw h s
  Step-IsSafe d (loses w a j l t h n) s = lost-IsSafe w a j l t h n s
  Step-IsSafe d (looks_up w a seq e o f r) s = looked_up-IsSafe w a seq d e o f r s
  Step-IsSafe d (blocks w a v t h) s =
      let b = rw h at (block_readers-Blocked x a v k w.now w.srv) in
      Blocked-IsSafe cfg.lease_duration w.now w.changed w.published _ _ _ w.granted b s
  Step-IsSafe d (publishes_at_once w a v t e l h n hd hl) s =
      let b = rw h at (block_readers-Blocked x a v k w.now w.srv) in
      republish-IsSafe w t e l hd hl (Blocked-over cfg.lease_duration w.now _ _ _ b refl n) s
  Step-IsSafe d (publishes_after_sleep w e l hd hl n h) s =
      let same = hold_shared cfg.lease_duration l (λ z. cc) in
      republish-IsSafe w w.srv e l hd hl (rw hl (omega arith)) s

  Reach-IsSafe : {u v : Watch x} → 10 ≤ cfg.lease_duration → Reach u v → Safe u → Safe v
  Reach-IsSafe d here s = s
  Reach-IsSafe d (next r q) s = Step-IsSafe d q (Reach-IsSafe d r s)

  -- A server that has just started, at some time.
  abbrev pub started : x.Store → ℕ → Watch x
  started store now = record {
    srv = init_srv x cfg store;
    now = now;
    changed = 0;
    published = 0;
    granted = [];
  }

  -- However Lookups and Uperms of a directory entry interleave on a server, and whatever else moves
  -- leases in its table, no client holds a lease on data older than a change beyond the time at which
  -- the change is published. Leases last ten microseconds at least, and the clock stays that far
  -- below the end of its range.
  pub Reach-Retired :
      (store : x.Store) (now : ℕ) (w : Watch x)
      → 10 ≤ cfg.lease_duration
      → now + cfg.lease_duration < u64_mod
      → Reach (started store now) w
      → All (Retired w.changed w.published) w.granted
  unfolding init_srv find_lease find
  Reach-Retired store now w d h r =
      let start : Safe (started store now) = record {
        limit = h;
        order = omega arith;
        within = tt;
        guarded = inl refl;
        covered = tt;
        retired = tt;
      } in
      (Reach-IsSafe d r start).retired
