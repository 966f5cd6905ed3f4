-- ===== src/Mds/Perm.antt =====
-- Uperm of src/libdeltafs/mds_srv.cc, with Chmod and Chown of mds_srv.h. If the target is a
-- directory, the change is published only when no client can hold a lease on the old data.
use deltafs.Prelude.{
  ℕ, ◌+◌, ◌-◌, Bool, true, false, ltb, ◌==◌, List, [], ◌∷◌, Option, none, some, if◌then◌else◌,
}
use deltafs.Mds.Types.{Ext, Result, ok, err, corruption, Stat, is_dir, access_perms, u32_mod}
use deltafs.Mds.Db.{Db, ◌>>=◌, ◌>>◌, lift, get_node, set_node, set_info, commit}
use deltafs.Mds.Table.{Inserted, exists_already, no_buffers, inserted}
use deltafs.Mds.Server.{
  Config, Srv, Dir, Lease, lease_free, lease_shared, lease_locked, LeaseKey, Answers, Reply, done,
  find_dir, put_dir, find_lease, put_lease, insert_lease,
}
use deltafs.Mds.Dirs.{check_found}
use deltafs.Mds.Handler.{Options, handle, change_dir, add64}
use deltafs.Mds.Read.{new_lease, count_lease}
use deltafs.Mds.Write.{begin_write, writing, unlock_dir, entry_info}

pub record UpermOptions : Type 0 where
  pub base : Options
  pub open base use *
  pub mode : ℕ
  pub uid : ℕ
  pub gid : ℕ

-- DELTAFS_NON_MOD, DELTAFS_NON_UID and DELTAFS_NON_GID.
abbrev pub non_mod : ℕ
non_mod = u32_mod - 1

-- What the call meets while it waits: the clock after each sleep for room in the lease table, which
-- leases stay when there is room, and the clock after the sleep past a lease's due time.
pub record Waits : Type 0 where
  pub retries : List ℕ
  pub keep : LeaseKey → Bool
  pub expired : ℕ

abbrev pub last_reading : ℕ → List ℕ → ℕ
last_reading now [] = now
last_reading now (t ∷ ts) = last_reading t ts

module _ (x : Ext) where
  -- The type bits and all others but the permissions stay.
  abbrev pub new_perms : UpermOptions → ℕ → Stat → Stat
  new_perms o now stat = record stat {
    file_mode =
        if o.mode == non_mod
        then stat.file_mode
        else stat.file_mode - access_perms stat.file_mode + access_perms o.mode;
    user_id = if o.uid == non_mod then stat.user_id else o.uid;
    group_id = if o.gid == non_mod then stat.group_id else o.gid;
    change_time = now;
  }

  unfoldable pub uperm_io : Config → UpermOptions → ℕ → Dir x → Db x Stat
  uperm_io cfg o now d = do
    (stat, name) ← λ s. (check_found x cfg o.name_hash (get_node x o.dir_id o.name_hash s).0, s)
    set_node x o.dir_id o.name_hash (new_perms o now stat) name
    set_info x o.dir_id (entry_info x now d.size)
    commit x
    lift (ok (new_perms o now stat))

  -- A new lease, when the table has room at last.
  abbrev pub install : LeaseKey → Inserted (Srv x) → Srv x → Option Lease × Srv x
  install k exists_already s = (none, s)
  install k no_buffers s = (none, s)
  install k (inserted t) s = (some (new_lease x k.0), change_dir x (count_lease x) k.0 t)

  -- The lease of the entry; one is made if there is none.
  unfoldable pub ensure_lease : Answers → Waits → LeaseKey → ℕ → Srv x → Option Lease × Srv x
  ensure_lease a w k now s = elim (find_lease k s) [
    | some l ↦ (some l, s)
    | none ↦
        let room = record a { lease_room = some w.keep } in
        install k (insert_lease room now k (new_lease x k.0) s) s
  ]

  -- A shared lease that still runs is locked, so that it is not extended. The result says whether
  -- the call has to sleep.
  unfoldable pub lock_lease : LeaseKey → ℕ → Option Lease → Srv x → Bool × Srv x
  lock_lease k now none s = (false, s)
  lock_lease k now (some l) s = elim l.state [
    | lease_shared ↦
        if ltb now l.due
        then (true, put_lease k (record l { state = lease_locked }) s)
        else (false, s)
    | lease_free ↦ (false, s)
    | lease_locked ↦ (false, s)
  ]

  -- The part before the sleep.
  unfoldable pub block_readers : Answers → Waits → LeaseKey → ℕ → Srv x → Bool × Srv x
  block_readers a w k now s = let (l, t) = ensure_lease a w k now s in lock_lease k now l t

  abbrev pub renewed : Config → ℕ → ℕ → Lease → Lease
  renewed cfg seq now l = record l {
    seq = seq;
    due = add64 now cfg.lease_duration;
    state = lease_free;
  }

  abbrev pub new_version : Dir x → Dir x
  new_version d = record d { seq = add64 d.seq 1 }

  abbrev pub republished : Config → LeaseKey → ℕ → Option (Dir x) → Option Lease → Srv x → Srv x
  republished cfg k now none l s = s
  republished cfg k now (some d) none s = put_dir k.0 (new_version d) s
  republished cfg k now (some d) (some l) s =
      put_lease k (renewed cfg (new_version d).seq now l) (put_dir k.0 (new_version d) s)

  -- The part after the sleep: a new version of the directory, and a lease for it.
  unfoldable pub publish : Config → LeaseKey → ℕ → Srv x → Srv x
  publish cfg k now s = republished cfg k now (find_dir k.0 s) (find_lease k s) s

  abbrev pub slept : Config → Waits → LeaseKey → ℕ → Bool × Srv x → Srv x
  slept cfg w k now (true, s) = publish cfg k w.expired s
  slept cfg w k now (false, s) = publish cfg k now s

  abbrev pub close_dir : ℕ → Dir x → Dir x
  close_dir now d = record d { mtime = now; locked = false; tx = none }

  unfoldable pub end_uperm : Config → Answers → Waits → UpermOptions → Result Stat → Srv x → Srv x
  end_uperm cfg a w o (err e) s = change_dir x (unlock_dir x) o.dir_id s
  end_uperm cfg a w o (ok stat) s =
      let k : LeaseKey = (o.dir_id, o.name_hash) in
      let now = last_reading a.end w.retries in
      change_dir x (close_dir a.start) o.dir_id
        (if is_dir stat.file_mode then slept cfg w k now (block_readers a w k now s) else s)

  abbrev pub permitted :
      Config → Answers → Waits → UpermOptions → Dir x → Srv x → Reply Stat × Srv x
  permitted cfg a w o d s =
      let u = begin_write x o.dir_id s in
      let (r, v) = uperm_io cfg o a.start d (writing x u) in
      (done r, end_uperm cfg a w o r (record u { store = v.store }))

  unfoldable pub uperm : Config → Answers → Waits → UpermOptions → Srv x → Reply Stat × Srv x
  uperm cfg a w o = handle x cfg a corruption false o.base (permitted cfg a w o)

  unfoldable pub chmod : Config → Answers → Waits → Options → ℕ → Srv x → Reply Stat × Srv x
  chmod cfg a w o mode =
      uperm cfg a w (record { base = o; mode = mode; uid = non_mod; gid = non_mod })

  unfoldable pub chown : Config → Answers → Waits → Options → ℕ → ℕ → Srv x → Reply Stat × Srv x
  chown cfg a w o uid gid =
      uperm cfg a w (record { base = o; mode = non_mod; uid = uid; gid = gid })
