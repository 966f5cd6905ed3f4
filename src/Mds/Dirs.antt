-- ===== src/Mds/Dirs.antt =====
-- LoadDir and FetchDir of src/libdeltafs/mds_srv.cc, MDS::PickupServer of mds.cc, and the entry
-- sequence that the handlers share. Handlers run one at a time here, so no call finds a directory
-- that another one is still loading.
use deltafs.Prelude.{
  ℕ, ◌%◌, Bool, false, ◌&&◌, ◌||◌, not, ◌==◌, none, some, Bytes, bytes_eq, is_empty, ◌++◌,
  if◌then◌else◌,
}
use deltafs.Mds.Types.{
  Ext, Result, ok, err, Error, buffer_full, invalid_argument, corruption, DirId, DirInfo,
}
use deltafs.Mds.Db.{
  Db, or_missing, ◌>>=◌, ◌>>◌, lift, get_info, set_info, get_dir_idx, set_dir_idx, create_tx,
  commit,
}
use deltafs.Mds.Server.{Config, Srv, Dir, Answers, find_dir, insert_dir, probe_dir}
use deltafs.Mds.Table.{Inserted, exists_already, no_buffers, inserted}

module _ (x : Ext) where
  -- EncodeId.
  unfoldable pub encode_id : DirId → Bytes
  encode_id id = x.put_varint64 id.reg ++ (x.put_varint64 id.snap ++ x.put_varint64 id.ino)

  unfoldable pub pickup_server : DirId → ℕ
  pickup_server id = x.random_server (encode_id id)

  -- Directory info, created if missing.
  unfoldable pub load_info : DirId → ℕ → Db x DirInfo
  load_info id now s = or_missing (get_info x id s) λ s'. create s'
    where
      fresh : DirInfo
      fresh = record { mtime = now; size = 0 }

      create : Db x DirInfo
      create = do create_tx x; set_info x id fresh; lift (ok fresh)

  abbrev pub ensure_tx : Db x (Unit {0})
  ensure_tx s = elim s.tx [ none ↦ create_tx x s | some t ↦ (ok tt, s) ]

  -- Directory index, created if missing and split to all servers.
  unfoldable pub load_index : Config → DirId → Db x x.Index
  load_index cfg id s = or_missing (get_dir_idx x id x.new_index s) λ s'. create s'
    where
      fresh : x.Index
      fresh = x.split_index (pickup_server id % cfg.num_virtual_servers)

      create : Db x x.Index
      create = do ensure_tx; set_dir_idx x id fresh; lift (ok fresh)

  unfoldable pub load_dir : Config → DirId → ℕ → Db x (DirInfo × x.Index)
  load_dir cfg id now = do
    info ← load_info id now
    index ← load_index cfg id
    commit x
    lift (ok (info, index))

  abbrev pub new_dir : DirInfo × x.Index → Dir x
  new_dir (info, index) = record {
    mtime = info.mtime;
    seq = 0;
    tx = none;
    index = index;
    status = none;
    num_leases = 0;
    size = info.size;
    locked = false;
  }

  -- Either error of the insertion is reported as a full table.
  abbrev pub cached : Srv x → Dir x → Inserted (Srv x) → Result (Dir x) × Srv x
  cached s d exists_already = (err buffer_full, s)
  cached s d no_buffers = (err buffer_full, s)
  cached s d (inserted s') = (ok d, s')

  abbrev pub loaded : Answers → DirId → Srv x → Result (DirInfo × x.Index) → Result (Dir x) × Srv x
  loaded a id s (err e) = (err e, s)
  loaded a id s (ok found) = cached s (new_dir found) (insert_dir a id (new_dir found) s)

  -- The directory from the cache, or loaded into it.
  unfoldable pub fetch_dir : Config → Answers → DirId → Srv x → Result (Dir x) × Srv x
  fetch_dir cfg a id s = elim (find_dir id s) [
    | some d ↦ (ok d, s)
    | none ↦
        let (r, t) = load_dir cfg id a.load_time (record { store = s.store; tx = none }) in
        loaded a id (record s { store = t.store }) r
  ]

  unfoldable pub hash_matches : Bytes → Bytes → Bool
  hash_matches hash name = bytes_eq hash (x.name_hash name)

  -- The check of the arguments, with the error that the handler gives for a mismatch. Where a name
  -- may be left out it is checked if it is there.
  unfoldable pub check_args : Config → Error → Bool → Bytes → Bytes → Result (Unit {0})
  check_args cfg mismatch needs_name hash name =
      if is_empty hash || (needs_name && is_empty name)
      then err invalid_argument
      else if cfg.paranoid_checks && not (is_empty name) && not (hash_matches hash name)
      then err mismatch
      else ok tt

  -- The check of a stored name, as Fstat, Fcreat, Unlink, Mkdir and Uperm make it.
  unfoldable pub check_found :
      Config → Bytes → {A : Type 0} → Result (A × Bytes) → Result (A × Bytes)
  check_found cfg hash (err e) = err e
  check_found cfg hash (ok (stat, name)) =
      if cfg.paranoid_checks && not (hash_matches hash name)
      then err corruption
      else ok (stat, name)

-- A handler under the mutex: refused, sent to another server, or in its parent directory.
pub data Entry (x : Ext) : Type 0 where
  refused : Error → Srv x → Entry x
  moved : Bytes → Srv x → Entry x
  entered : Dir x → Srv x → Entry x

module _ (x : Ext) where
  abbrev pub probed : Config → Bytes → Srv x → Dir x → Entry x
  probed cfg hash s d = elim (probe_dir s d) [
    | err e ↦ refused e s
    | ok _ ↦
        if x.hash_to_server d.index hash == cfg.srv_id
        then entered d s
        else moved (x.encode_index d.index) s
  ]

  abbrev pub fetched : Config → Bytes → Result (Dir x) × Srv x → Entry x
  fetched cfg hash (err e, s) = refused e s
  fetched cfg hash (ok d, s) = probed cfg hash s d

  -- FetchDir, ProbeDir and the test that this server is the right one for the name.
  unfoldable pub enter : Config → Answers → DirId → Bytes → Srv x → Entry x
  enter cfg a id hash s = fetched cfg hash (fetch_dir x cfg a id s)
