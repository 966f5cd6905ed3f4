-- ===== src/Mds/Read.antt =====
-- Fstat, Lookup, Listdir, Readidx, Opensession, Getinput and Getoutput of
-- src/libdeltafs/mds_srv.cc.
use deltafs.Prelude.{ℕ, ◌+◌, false, ltb, leb, List, Option, none, some, Bytes, if◌then◌else◌}
use deltafs.Mds.Types.{
  Ext, Result, ok, err, invalid_argument, corruption, dir_expected, DirId, Stat, is_dir,
}
use deltafs.Mds.Db.{Tx, Session, get_node, list}
use deltafs.Mds.Table.{Inserted, exists_already, no_buffers, inserted}
use deltafs.Mds.Server.{
  Config, Srv, Dir, Lease, lease_free, lease_shared, lease_locked, LeaseKey, Answers, Reply, done,
  find_lease, put_lease, insert_lease, next_session, probe_dir,
}
use deltafs.Mds.Dirs.{check_found, fetch_dir}
use deltafs.Mds.Handler.{Options, handle, change_dir, sub64, add64}

module _ (x : Ext) where
  -- Readers see the snapshot of the write that is going on in the directory, if there is one.
  abbrev pub reading : Dir x → Srv x → Session x
  reading d s = record { store = s.store; tx = d.tx }

  abbrev pub stat_of : Result (Stat × Bytes) → Result Stat
  stat_of (err e) = err e
  stat_of (ok (stat, name)) = ok stat

  -- The part of Fstat that runs without the mutex: first the load of `d->tx`, then the read, with the
  -- store as it is by then.
  abbrev pub load_tx : Dir x → Option (Tx x)
  load_tx d = d.tx

  unfoldable pub read_entry : Config → Options → Option (Tx x) → x.Store → Result Stat
  read_entry cfg o t st = stat_of (
      check_found x cfg o.name_hash
        (get_node x o.dir_id o.name_hash (record { store = st; tx = t })).0)

  unfoldable pub fstat : Config → Answers → Options → Srv x → Reply Stat × Srv x
  fstat cfg a o =
      handle x cfg a invalid_argument false o
        λ d s. (done (read_entry cfg o (load_tx d) s.store), s)

  abbrev pub dir_stat : Result (Stat × Bytes) → Result Stat
  dir_stat (err e) = err e
  dir_stat (ok (stat, name)) = if is_dir stat.file_mode then ok stat else err dir_expected

  -- A lease for the version `my_seq` of the data: extended unless a writer has locked it. No lease
  -- is given if it is for newer data.
  unfoldable pub extend_lease : Config → LeaseKey → ℕ → ℕ → Lease → Srv x → ℕ × Srv x
  extend_lease cfg k my_seq my_end l s =
      if leb l.seq my_seq
      then elim l.state [ lease_locked ↦ (l.due, s) | lease_free ↦ shared | lease_shared ↦ shared ]
      else (0, s)
    where
      due : ℕ
      due = add64 my_end cfg.lease_duration

      shared : ℕ × Srv x
      shared = (due, put_lease k (record l { state = lease_shared; due = due }) s)

  abbrev pub new_lease : DirId → Lease
  new_lease id = record { seq = 0; parent = id; due = 0; state = lease_free }

  abbrev pub count_lease : Dir x → Dir x
  count_lease d = record d { num_leases = d.num_leases + 1 }

  abbrev pub with_new : Config → LeaseKey → ℕ → ℕ → Inserted (Srv x) → Srv x → ℕ × Srv x
  with_new cfg k my_seq my_end exists_already s = (0, s)
  with_new cfg k my_seq my_end no_buffers s = (0, s)
  with_new cfg k my_seq my_end (inserted t) s =
      extend_lease cfg k my_seq my_end (new_lease k.0) (change_dir x count_lease k.0 t)

  -- The lease for an entry is looked up, or made if the table has room.
  unfoldable pub issue_lease : Config → Answers → LeaseKey → ℕ → Srv x → ℕ × Srv x
  issue_lease cfg a k my_seq s = elim (find_lease k s) [
    | some l ↦ extend_lease cfg k my_seq a.end l s
    | none ↦ with_new cfg k my_seq a.end (insert_lease a a.end k (new_lease k.0) s) s
  ]

  abbrev pub leased : Result Stat → ℕ × Srv x → Reply (Stat × ℕ) × Srv x
  leased (err e) (due, s) = (done (err e), s)
  leased (ok stat) (due, s) = (done (ok (stat, due)), s)

  -- No lease after a negative result, or if the call took as long as a lease lasts.
  abbrev pub lookup_in :
      Config → Answers → Options → Dir x → Srv x → Result Stat → Reply (Stat × ℕ) × Srv x
  lookup_in cfg a o d s (err e) = (done (err e), s)
  lookup_in cfg a o d s (ok stat) =
      let fresh = ltb (sub64 a.end a.start) (sub64 cfg.lease_duration 10) in
      leased (ok stat) (if fresh then issue_lease cfg a (o.dir_id, o.name_hash) d.seq s else (0, s))

  -- The reply carries the time until which the client may keep the result, or 0.
  unfoldable pub lookup : Config → Answers → Options → Srv x → Reply (Stat × ℕ) × Srv x
  lookup cfg a o =
      handle x cfg a corruption false o
        λ d s. lookup_in cfg a o d s (dir_stat (get_node x o.dir_id o.name_hash (reading d s)).0)

  -- At most 1000 names, read from the store as it is.
  unfoldable pub listdir : DirId → Srv x → Reply (List Bytes) × Srv x
  listdir id s = (done (ok (list x id 1000 (record { store = s.store; tx = none }))), s)

  abbrev pub encoded_index : Srv x → Dir x → Result (Unit {0}) → Reply Bytes × Srv x
  encoded_index s d (err e) = (done (err e), s)
  encoded_index s d (ok _) = (done (ok (x.encode_index d.index)), s)

  abbrev pub index_of : Result (Dir x) × Srv x → Reply Bytes × Srv x
  index_of (err e, s) = (done (err e), s)
  index_of (ok d, s) = encoded_index s d (probe_dir s d)

  unfoldable pub readidx : Config → Answers → DirId → Srv x → Reply Bytes × Srv x
  readidx cfg a id s = index_of (fetch_dir x cfg a id s)

  -- The environment of the server, and a session id of its own for the client.
  unfoldable pub opensession : Config → Srv x → Reply (Bytes × Bytes × Bytes × Bytes × ℕ) × Srv x
  opensession cfg s =
      let (id, t) = next_session cfg s in
      (done (ok (cfg.env_name, cfg.env_conf, cfg.fio_name, cfg.fio_conf, id)), t)

  unfoldable pub getinput : Config → Srv x → Reply Bytes × Srv x
  getinput cfg s = (done (ok cfg.input_conf), s)

  unfoldable pub getoutput : Config → Srv x → Reply Bytes × Srv x
  getoutput cfg s = (done (ok cfg.output_conf), s)
