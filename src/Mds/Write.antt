-- ===== src/Mds/Write.antt =====
-- Fcreat and Mkdir of src/libdeltafs/mds_srv.cc. Each has the part under the
-- mutex that begins the write, the part on the store, which runs while other threads may read, and
-- the part under the mutex that publishes it.
use deltafs.Prelude.{ℕ, ◌%◌, Bool, true, false, none, some, [], Bytes, if◌then◌else◌}
use deltafs.Mds.Types.{
  Ext, Result, ok, err, not_found, already_exists, invalid_argument, file_expected, dir_expected,
  DirId, Stat, DirInfo, is_reg, is_dir, reg_mode, dir_mode, is_excl,
}
use deltafs.Mds.Db.{Tx, Session, Db, ◌>>◌, lift, get_node, set_node, set_info, commit}
use deltafs.Mds.Server.{Config, Srv, Dir, Answers, Reply, done, redirect, next_ino, try_reuse_ino}
use deltafs.Mds.Dirs.{check_found, pickup_server}
use deltafs.Mds.Handler.{Options, handle, change_dir, inc32}

-- FcreatOptions and MkdirOptions.
pub record CreateOptions : Type 0 where
  pub base : Options
  pub open base use *
  pub flags : ℕ
  pub mode : ℕ
  pub uid : ℕ
  pub gid : ℕ

module _ (x : Ext) where
  -- DirLock, under the mutex.
  abbrev pub locked_dir : Dir x → Dir x
  locked_dir d = record d { locked = true }

  unfoldable pub lock_write : DirId → Srv x → Srv x
  lock_write id s = change_dir x locked_dir id s

  -- The new transaction, made after the mutex is released.
  abbrev pub start_tx : Srv x → Tx x
  start_tx s = record { snap = s.store; bat = [] }

  -- Release_Store: readers find the transaction in `d->tx` from here on.
  abbrev pub with_tx : Tx x → Dir x → Dir x
  with_tx t d = record d { tx = some t }

  unfoldable pub publish_tx : Tx x → DirId → Srv x → Srv x
  publish_tx t id s = change_dir x (with_tx t) id s

  abbrev pub lock_dir : Tx x → Dir x → Dir x
  lock_dir t d = with_tx t (locked_dir d)

  abbrev pub unlock_dir : Dir x → Dir x
  unlock_dir d = record d { locked = false; tx = none }

  -- The three in a row, when nothing comes between them.
  unfoldable pub begin_write : DirId → Srv x → Srv x
  begin_write id s = let u = lock_write id s in publish_tx (start_tx u) id u

  -- The session of the write, over the store as it is when it runs.
  abbrev pub writing : Srv x → Session x
  writing s = record { store = s.store; tx = some (start_tx s) }

  abbrev pub entry_info : ℕ → ℕ → DirInfo
  entry_info mtime size = record { mtime = mtime; size = size }

  abbrev pub new_stat : Config → CreateOptions → ℕ → ℕ → ℕ → ℕ → Stat
  new_stat cfg o mode zserver ino now = record {
    reg_id = cfg.reg_id;
    snap_id = cfg.snap_id;
    inode_no = ino;
    file_size = 0;
    file_mode = mode;
    zeroth_server = zserver;
    user_id = o.uid;
    group_id = o.gid;
    modify_time = now;
    change_time = now;
  }

  -- A new entry, the directory's new info, and the commit.
  unfoldable pub add_entry : Options → Stat → ℕ → Dir x → Db x (Stat × Bool)
  add_entry o stat now d = do
    set_node x o.dir_id o.name_hash stat o.name
    set_info x o.dir_id (entry_info now (inc32 d.size))
    commit x
    lift (ok (stat, true))

  abbrev pub existing_file : CreateOptions → Stat → Result (Stat × Bool)
  existing_file o stat =
      if is_excl o.flags
      then err already_exists
      else if is_reg stat.file_mode
      then ok (stat, false)
      else err file_expected

  abbrev pub existing_dir : CreateOptions → Stat → Result (Stat × Bool)
  existing_dir o stat =
      if is_excl o.flags
      then err already_exists
      else if is_dir stat.file_mode
      then ok (stat, false)
      else err dir_expected

  abbrev pub create_at :
      (Stat → Result (Stat × Bool))
      → Options
      → Stat
      → ℕ
      → Dir x
      → Result (Stat × Bytes)
      → Db x (Stat × Bool)
  create_at existing o new now d (ok (stat, name)) s = (existing stat, s)
  create_at existing o new now d (err not_found) s = add_entry o new now d s
  create_at existing o new now d (err e) s = (err e, s)

  -- The result carries whether the entry was made.
  unfoldable pub fcreat_io : Config → CreateOptions → ℕ → ℕ → Dir x → Db x (Stat × Bool)
  fcreat_io cfg o now ino d s =
      create_at (existing_file o) o.base (new_stat cfg o (reg_mode o.mode) 0 ino now) now d
        (check_found x cfg o.name_hash (get_node x o.dir_id o.name_hash s).0) s

  unfoldable pub mkdir_io : Config → CreateOptions → ℕ → ℕ → Dir x → Db x (Stat × Bool)
  mkdir_io cfg o now ino d s =
      create_at (existing_dir o) o.base (new_stat cfg o (dir_mode o.mode) zserver ino now) now d
        (check_found x cfg o.name_hash (get_node x o.dir_id o.name_hash s).0) s
    where
      id : DirId
      id = record { reg = cfg.reg_id; snap = cfg.snap_id; ino = ino }

      zserver : ℕ
      zserver = pickup_server x id % cfg.num_virtual_servers

  abbrev pub one_more : ℕ → Dir x → Dir x
  one_more now d = record d { size = inc32 d.size; mtime = now; locked = false; tx = none }

  -- A call that made no entry gives its inode number back, if it is still the last one.
  unfoldable pub end_create : DirId → ℕ → ℕ → Result (Stat × Bool) → Srv x → Srv x
  end_create id now ino (ok (stat, true)) s = change_dir x (one_more now) id s
  end_create id now ino (ok (stat, false)) s = change_dir x unlock_dir id (try_reuse_ino ino s)
  end_create id now ino (err e) s = change_dir x unlock_dir id (try_reuse_ino ino s)

  -- The last part, over what the part on the store came to.
  abbrev pub publish_created :
      Config
      → Answers
      → DirId
      → Srv x
      → Result (Stat × Bool) × Session x
      → Reply (Stat × Bool) × Srv x
  publish_created cfg a id s (r, v) =
      let (ino, t) = next_ino cfg s in
      (done r, end_create id a.start ino r (record (begin_write id t) { store = v.store }))

  -- The three parts of a creation, one after the other.
  abbrev pub created :
      (ℕ → Dir x → Db x (Stat × Bool))
      → Config
      → Answers
      → DirId
      → Dir x
      → Srv x
      → Reply (Stat × Bool) × Srv x
  created io cfg a id d s =
      let (ino, t) = next_ino cfg s in
      publish_created cfg a id s (io ino d (writing (begin_write id t)))

  unfoldable pub fcreat : Config → Answers → CreateOptions → Srv x → Reply (Stat × Bool) × Srv x
  fcreat cfg a o =
      handle x cfg a invalid_argument true o.base
        (created (λ ino d. fcreat_io cfg o a.start ino d) cfg a o.dir_id)

  abbrev pub drop_flag : Reply (Stat × Bool) × Srv x → Reply Stat × Srv x
  drop_flag (done (ok (stat, made)), s) = (done (ok stat), s)
  drop_flag (done (err e), s) = (done (err e), s)
  drop_flag (redirect idx, s) = (redirect idx, s)

  unfoldable pub mkdir : Config → Answers → CreateOptions → Srv x → Reply Stat × Srv x
  mkdir cfg a o s = drop_flag (
      handle x cfg a invalid_argument true o.base
        (created (λ ino d. mkdir_io cfg o a.start ino d) cfg a o.dir_id) s)
