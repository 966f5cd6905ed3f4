-- ===== src/Tests/Mds.antt =====
-- The metadata service at concrete inputs.
use deltafs.Prelude.{
  ℕ, ◌*◌, ◌^◌, ◌<◌, ◌≤◌, ◌≡◌, refl, true, false, [], ◌∷◌, none, some, All, arith, bytes_eq,
}
use deltafs.Mds.Types.{Stat, ok, err, not_found, dir_id_eq}
use deltafs.Mds.Db
use deltafs.Mds.Table
use deltafs.Mds.Server.{Config, Srv, Dir, Reply, done, init_srv, next_ino}
use deltafs.Mds.Server
use deltafs.Mds.Dirs
use deltafs.Mds.Read.{fstat, read_entry}
use deltafs.Mds.Write.{fcreat, mkdir}
use deltafs.Mds.Write
use deltafs.Mds.Visible.{fstat-fcreat, fstat-mkdir}
use deltafs.Mds.Gone.{fstat-unlink}
use deltafs.Mds.Reload.{get_info-fcreat}
use deltafs.Mds.Sessions.{session_id_unique}
use deltafs.Mds.Types.{DirInfo}
use deltafs.Tests.Sample.{sample-IsCoding}
use deltafs.Mds.Updated.{fstat-utime, fstat-trunc}
use deltafs.Mds.Update.{UnlinkOptions, unlink, UtimeOptions, utime, TruncOptions, trunc}
use deltafs.Mds.Update
use deltafs.Mds.Isolation
use deltafs.Mds.Isolation.{Run, published, tx_of}
use deltafs.Mds.Inodes.{Usage, takes, Reach, here, next, Reach-Distinct, Distinct, fresh}
use deltafs.Tests.Sample.{sample, sample-IsStore, root, config, answers, entry, new_entry, boot}

-- Everything that a run of a handler goes through.
unfoldable pub run_all : ℕ
unfolding bytes_eq dir_id_eq Db.create_tx Db.get_node Db.set_node Db.encode_info Db.decode_info
    Db.get_info Db.set_info Db.get_dir_idx Db.set_dir_idx Db.commit Table.find Table.put
    Table.retain Table.insert Server.dir_busy Server.find_dir Server.put_dir Server.insert_dir
    init_srv next_ino Server.probe_dir Server.try_reuse_ino Dirs.encode_id Dirs.pickup_server
    Dirs.load_info Dirs.load_index Dirs.load_dir Dirs.fetch_dir Dirs.hash_matches Dirs.check_args
    Dirs.check_found Dirs.enter read_entry fstat Write.lock_write Write.publish_tx Write.begin_write
    Write.add_entry Write.fcreat_io Write.end_create fcreat Write.mkdir_io mkdir Db.del_node_of
    Update.remove_entry Update.unlink_io Update.end_unlink unlink Update.store_stat Update.utime_io
    Update.trunc_io Update.end_update utime trunc
run_all = 0

unfoldable pub made : Stat
made = record {
  reg_id = 0;
  snap_id = 0;
  inode_no = 1;
  file_size = 0;
  file_mode = 33188;
  zeroth_server = 0;
  user_id = 1;
  group_id = 2;
  modify_time = 10;
  change_time = 10;
}

unfoldable pub after_fcreat : Srv sample
after_fcreat = (fcreat sample config answers new_entry boot).1

fcreat_run : fcreat sample config answers new_entry boot ≡ (done (ok (made, true)), after_fcreat)
unfolding run_all made after_fcreat
fcreat_run = refl

after_fcreat_alive : after_fcreat.status ≡ none
unfolding run_all after_fcreat
after_fcreat_alive = refl

fstat-fcreat_example :
    fstat sample config answers entry after_fcreat ≡ (done (ok made), after_fcreat)
fstat-fcreat_example =
    fstat-fcreat sample sample-IsStore config answers answers new_entry made true boot after_fcreat
      fcreat_run after_fcreat_alive

made_dir : Stat
made_dir = record made { file_mode = 16804 }

after_mkdir : Srv sample
after_mkdir = (mkdir sample config answers new_entry boot).1

mkdir_run : mkdir sample config answers new_entry boot ≡ (done (ok made_dir), after_mkdir)
unfolding run_all made made_dir after_mkdir
mkdir_run = refl

after_mkdir_alive : after_mkdir.status ≡ none
unfolding run_all after_mkdir
after_mkdir_alive = refl

fstat-mkdir_example :
    fstat sample config answers entry after_mkdir ≡ (done (ok made_dir), after_mkdir)
fstat-mkdir_example =
    fstat-mkdir sample sample-IsStore config answers answers new_entry made_dir boot after_mkdir
      mkdir_run after_mkdir_alive

old_entry : UnlinkOptions
old_entry = record { base = entry; flags = 0 }

after_unlink : Srv sample
after_unlink = (unlink sample config answers old_entry after_fcreat).1

unlink_run : unlink sample config answers old_entry after_fcreat ≡ (done (ok made), after_unlink)
unfolding run_all made old_entry after_fcreat after_unlink
unlink_run = refl

fstat-unlink_example :
    fstat sample config answers entry after_unlink ≡ (done (err not_found), after_unlink)
unfolding old_entry
fstat-unlink_example =
    fstat-unlink sample sample-IsStore config answers answers old_entry made after_fcreat
      after_unlink unlink_run

unfoldable pub root_dir : Dir sample
root_dir = record {
  mtime = 10;
  seq = 0;
  tx = none;
  index = 0;
  status = none;
  num_leases = 0;
  size = 1;
  locked = false;
}

root_found : Server.find_dir root after_fcreat ≡ some root_dir
unfolding run_all after_fcreat root_dir
root_found = refl

-- The write has begun, a reader loads the transaction, the store changes, and the reader reads.
abbrev begun : Run sample
begun = published sample (Write.start_tx sample after_fcreat) root after_fcreat

abbrev begun_loaded : Run sample
begun_loaded = record begun { loaded = some (tx_of sample root begun.srv) }

abbrev begun_emptied : Run sample
begun_emptied = record begun_loaded { srv = record begun.srv { store = [] } }

one_taken : Usage sample
one_taken = record { srv = (next_ino config boot).1; used = 1 ∷ [] }

one_taken_reached : Reach config (fresh config []) one_taken
unfolding one_taken next_ino init_srv
one_taken_reached = next here (takes (fresh config []) (omega arith))

Reach-Distinct_example :
    Distinct one_taken.used × All (λ k. (0 * 2 ^ 32 < k) × (k ≤ one_taken.srv.ino)) one_taken.used
Reach-Distinct_example = Reach-Distinct config [] one_taken (omega arith) one_taken_reached

-- The info of the root directory in the store.
stored_info : DirInfo
stored_info = record { mtime = 10; size = 1 }

get_info-fcreat_example :
    (Db.get_info sample root (record { store = after_fcreat.store; tx = none })).0 ≡ ok stored_info
unfolding root_dir stored_info
get_info-fcreat_example =
    get_info-fcreat sample sample-IsStore sample-IsCoding config answers new_entry made boot
      after_fcreat root_dir (omega arith) fcreat_run root_found

session_id_unique_example : (◌≡◌ {A = ℕ} 0 0) × (config.srv_id ≡ config.srv_id)
session_id_unique_example =
    session_id_unique sample config config [] [] 0 0 refl (omega arith) (omega arith) (omega arith)
      (omega arith) refl

trusting : Config
trusting = record config { paranoid_checks = false }

new_time : UtimeOptions
new_time = record { base = entry; mtime = 77 }

touched : Stat
touched = record made { modify_time = 77 }

after_utime : Srv sample
after_utime = (utime sample trusting answers new_time after_fcreat).1

utime_run : utime sample trusting answers new_time after_fcreat ≡ (done (ok touched), after_utime)
unfolding run_all made trusting new_time touched after_fcreat after_utime
utime_run = refl

fstat-utime_example :
    fstat sample trusting answers entry after_utime ≡ (done (ok touched), after_utime)
unfolding new_time
fstat-utime_example =
    fstat-utime sample sample-IsStore trusting answers answers new_time touched after_fcreat
      after_utime (unfold trusting in refl) utime_run

new_size : TruncOptions
new_size = record { base = entry; mtime = 78; size = 5 }

resized : Stat
resized = record made { file_size = 5; modify_time = 78 }

after_trunc : Srv sample
after_trunc = (trunc sample trusting answers new_size after_fcreat).1

trunc_run : trunc sample trusting answers new_size after_fcreat ≡ (done (ok resized), after_trunc)
unfolding run_all made trusting new_size resized after_fcreat after_trunc
trunc_run = refl

fstat-trunc_example :
    fstat sample trusting answers entry after_trunc ≡ (done (ok resized), after_trunc)
unfolding new_size
fstat-trunc_example =
    fstat-trunc sample sample-IsStore trusting answers answers new_size resized after_fcreat
      after_trunc (unfold trusting in refl) trunc_run
