-- ===== src/Mds/Rpc/Server.antt =====
-- The metadata server as the MDS behind an RPC: the calls of src/libdeltafs/mds_api.h on
-- the handlers of mds_srv.cc.
use deltafs.Prelude.{ℕ, Bool, true, false, Bytes}
use deltafs.Mds.Types.{Ext, ok, err, Stat}
use deltafs.Mds.Server.{Config, Srv, Answers, Reply, done, redirect}
use deltafs.Mds.Handler.{Options}
use deltafs.Mds.Read
use deltafs.Mds.Write
use deltafs.Mds.Update
use deltafs.Mds.Perm
use deltafs.Mds.Perm.{Waits}
use deltafs.Mds.Rpc.Wire.{LookupStat}
use deltafs.Mds.Rpc.Calls.{
  fstat, lookup, listdir, readidx, fcreat, mkdir, chmod, unlink, chown, uperm, utime, trunc,
  opensession, getinput, getoutput, Service, BaseOptions, NewOptions, Created, Session,
}

-- What the handlers use of the BaseOptions.
abbrev pub options : BaseOptions → Options
options b = record { dir_id = b.dir_id; name_hash = b.name_hash; name = b.name }

abbrev pub new_options : BaseOptions → NewOptions → Write.CreateOptions
new_options b o = record {
  base = options b;
  flags = o.flags;
  mode = o.mode;
  uid = o.uid;
  gid = o.gid;
}

abbrev pub map_reply : {A B S : Type 0} → (A → B) → Reply A × S → Reply B × S
map_reply f (done (ok a), s) = (done (ok (f a)), s)
map_reply f (done (err e), s) = (done (err e), s)
map_reply f (redirect idx, s) = (redirect idx, s)

abbrev pub created_flag : Bool → ℕ
created_flag true = 1
created_flag false = 0

abbrev pub to_created : Stat × Bool → Created
to_created (stat, made) = record { stat = stat; created = created_flag made }

-- LookupStat::CopyFrom and SetLeaseDue.
unfoldable pub lookup_stat : Stat × ℕ → LookupStat
lookup_stat (stat, due) = record {
  reg_id = stat.reg_id;
  snap_id = stat.snap_id;
  inode_no = stat.inode_no;
  zeroth_server = stat.zeroth_server;
  dir_mode = stat.file_mode;
  user_id = stat.user_id;
  group_id = stat.group_id;
  lease_due = due;
}

abbrev to_session : Bytes × Bytes × Bytes × Bytes × ℕ → Session
to_session (env_name, env_conf, fio_name, fio_conf, id) = record {
  env_name = env_name;
  env_conf = env_conf;
  fio_name = fio_name;
  fio_conf = fio_conf;
  session_id = id;
}

-- One call, with what it meets outside.
unfoldable pub server : (x : Ext) → Config → Answers → Waits → Service (Srv x)
server x cfg a w (fstat b) s = Read.fstat x cfg a (options b) s
server x cfg a w (lookup b) s = map_reply lookup_stat (Read.lookup x cfg a (options b) s)
server x cfg a w (listdir b) s = Read.listdir x b.dir_id s
server x cfg a w (readidx b) s = Read.readidx x cfg a b.dir_id s
server x cfg a w (fcreat b o) s = map_reply to_created (Write.fcreat x cfg a (new_options b o) s)
server x cfg a w (mkdir b o) s = Write.mkdir x cfg a (new_options b o) s
server x cfg a w (chmod b mode) s = Perm.chmod x cfg a w (options b) mode s
server x cfg a w (chown b o) s = Perm.chown x cfg a w (options b) o.uid o.gid s
server x cfg a w (uperm b o) s =
    Perm.uperm x cfg a w (record { base = options b; mode = o.mode; uid = o.uid; gid = o.gid }) s
server x cfg a w (utime b o) s =
    Update.utime x cfg a (record { base = options b; mtime = o.mtime }) s
server x cfg a w (trunc b o) s =
    Update.trunc x cfg a (record { base = options b; mtime = o.mtime; size = o.size }) s
server x cfg a w (unlink b flags) s =
    Update.unlink x cfg a (record { base = options b; flags = flags }) s
server x cfg a w opensession s = map_reply to_session (Read.opensession x cfg s)
server x cfg a w getinput s = Read.getinput x cfg s
server x cfg a w getoutput s = Read.getoutput x cfg s
