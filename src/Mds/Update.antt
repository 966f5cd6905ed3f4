-- ===== src/Mds/Update.antt =====
-- Unlink, Utime and Trunc of src/libdeltafs/mds_srv.cc, in the same three parts as a creation.
use deltafs.Prelude.{ℕ, Bool, true, false, none, Bytes, if◌then◌else◌}
use deltafs.Mds.Types.{
  Ext, Result, ok, err, not_found, invalid_argument, corruption, file_expected, DirId, Stat, is_reg,
  is_excl,
}
use deltafs.Mds.Db.{Db, ◌>>=◌, ◌>>◌, lift, get_node, set_node, del_node_of, set_info, commit}
use deltafs.Mds.Server.{Config, Srv, Dir, Answers, Reply, done}
use deltafs.Mds.Dirs.{check_found}
use deltafs.Mds.Handler.{Options, handle, change_dir, dec32}
use deltafs.Mds.Write.{begin_write, writing, unlock_dir, entry_info, drop_flag}

pub record UnlinkOptions : Type 0 where
  pub base : Options
  pub open base use *
  pub flags : ℕ

-- UtimeOptions without the access time, which is not stored.
pub record UtimeOptions : Type 0 where
  pub base : Options
  pub open base use *
  pub mtime : ℕ

pub record TruncOptions : Type 0 where
  pub base : Options
  pub open base use *
  pub mtime : ℕ
  pub size : ℕ

-- What Unlink reports for a name that is not there.
abbrev pub no_stat : Stat
no_stat = record {
  reg_id = 0;
  snap_id = 0;
  inode_no = 0;
  file_size = 0;
  file_mode = 0;
  zeroth_server = 0;
  user_id = 0;
  group_id = 0;
  modify_time = 0;
  change_time = 0;
}

module _ (x : Ext) where
  -- The entry's removal, the directory's new info, and the commit.
  unfoldable pub remove_entry : Options → Stat → ℕ → Dir x → Db x (Stat × Bool)
  remove_entry o stat now d = do
    del_node_of x o.dir_id o.name_hash
    set_info x o.dir_id (entry_info x now (dec32 d.size))
    commit x
    lift (ok (stat, true))

  abbrev pub unlink_found : UnlinkOptions → ℕ → Dir x → Result (Stat × Bytes) → Db x (Stat × Bool)
  unlink_found o now d (ok (stat, name)) s =
      if is_reg stat.file_mode then remove_entry o.base stat now d s else (err file_expected, s)
  unlink_found o now d (err not_found) s =
      if is_excl o.flags then (err not_found, s) else (ok (no_stat, false), s)
  unlink_found o now d (err e) s = (err e, s)

  -- The result carries whether an entry was removed.
  unfoldable pub unlink_io : Config → UnlinkOptions → ℕ → Dir x → Db x (Stat × Bool)
  unlink_io cfg o now d s =
      unlink_found o now d (check_found x cfg o.name_hash (get_node x o.dir_id o.name_hash s).0) s

  abbrev pub one_less : ℕ → Dir x → Dir x
  one_less now d = record d { size = dec32 d.size; mtime = now; locked = false; tx = none }

  unfoldable pub end_unlink : DirId → ℕ → Result (Stat × Bool) → Srv x → Srv x
  end_unlink id now (ok (stat, true)) s = change_dir x (one_less now) id s
  end_unlink id now (ok (stat, false)) s = change_dir x (unlock_dir x) id s
  end_unlink id now (err e) s = change_dir x (unlock_dir x) id s

  abbrev pub unlinked :
      Config → Answers → UnlinkOptions → Dir x → Srv x → Reply (Stat × Bool) × Srv x
  unlinked cfg a o d s =
      let u = begin_write x o.dir_id s in
      let (r, v) = unlink_io cfg o a.start d (writing x u) in
      (done r, end_unlink o.dir_id a.start r (record u { store = v.store }))

  unfoldable pub unlink : Config → Answers → UnlinkOptions → Srv x → Reply Stat × Srv x
  unlink cfg a o s = drop_flag x (handle x cfg a invalid_argument false o.base (unlinked cfg a o) s)

  -- The entry's new stat and the commit. The directory's own info stays.
  unfoldable pub store_stat : Options → Stat → Bytes → Db x Stat
  store_stat o stat name = do set_node x o.dir_id o.name_hash stat name; commit x; lift (ok stat)

  unfoldable pub utime_io : UtimeOptions → ℕ → Db x Stat
  utime_io o now = do
    (stat, name) ← get_node x o.dir_id o.name_hash
    store_stat o.base (record stat { modify_time = o.mtime; change_time = now }) name

  abbrev pub truncated : TruncOptions → ℕ → Stat → Result Stat
  truncated o now stat =
      if is_reg stat.file_mode
      then ok (record stat { file_size = o.size; modify_time = o.mtime; change_time = now })
      else err file_expected

  unfoldable pub trunc_io : TruncOptions → ℕ → Db x Stat
  trunc_io o now = do
    (stat, name) ← get_node x o.dir_id o.name_hash
    stat' ← lift (truncated o now stat)
    store_stat o.base stat' name

  unfoldable pub end_update : DirId → Srv x → Srv x
  end_update id s = change_dir x (unlock_dir x) id s

  abbrev pub updated : Db x Stat → DirId → Dir x → Srv x → Reply Stat × Srv x
  updated io id d s =
      let u = begin_write x id s in
      let (r, v) = io (writing x u) in (done r, end_update id (record u { store = v.store }))

  unfoldable pub utime : Config → Answers → UtimeOptions → Srv x → Reply Stat × Srv x
  utime cfg a o = handle x cfg a corruption false o.base (updated (utime_io o a.start) o.dir_id)

  unfoldable pub trunc : Config → Answers → TruncOptions → Srv x → Reply Stat × Srv x
  trunc cfg a o = handle x cfg a corruption false o.base (updated (trunc_io o a.start) o.dir_id)
