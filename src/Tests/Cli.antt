-- ===== src/Tests/Cli.antt =====
-- The client of the metadata servers at concrete inputs.
use deltafs.Prelude.{
  ℕ, ◌+◌, ◌≡◌, refl, true, false, [], ◌∷◌, none, some, Bytes, bytes_eq, bytes_eq_refl, List, arith,
}
use deltafs.Mds.Types.{ok, err, not_supported}
use deltafs.Mds.Table.{find, remove}
use deltafs.Mds.Server.{done, redirect}
use deltafs.Mds.Rpc.Wire.{LookupStat}
use deltafs.Mds.Rpc.Calls.{Call, fstat, readidx, Service, BaseOptions}
use deltafs.Mds.Rpc.Calls
use deltafs.Cli.State.{Lru, Common, CliConfig, Cli, Outside, returned}
use deltafs.Cli.Cached.{IsLru, lookup-lookup, looked}
use deltafs.Cli.Ends.{is_running, routed-is_running}
use deltafs.Cli.Redirect
use deltafs.Cli.Redirect.{routed}
use deltafs.Cli.Find
use deltafs.Cli.Resolve.{resolve_path, start_info, slash}
use deltafs.Cli.Walk.{spell, follow}
use deltafs.Cli.Walk.Agrees.{resolve_path-spell}
use deltafs.Tests.Sample.{root}

-- A cache that is a list.
abbrev listed : (V : Type 0) → Lru V
listed V = record {
  Cache = List (Bytes × V);
  find = λ k s. (find bytes_eq k s, s);
  insert = λ k v s. (k, v) ∷ s;
  erase = λ k s. remove bytes_eq k s;
}

listed-IsLru : {V : Type 0} → IsLru (listed V)
unfolding find
listed-IsLru = record { find_insert = λ k v s. rw (bytes_eq_refl k); find_again = λ k v s h. h }

abbrev common : Common
common = record {
  Index = ℕ;
  new_index = 0;
  update_index = λ idx bytes. some idx;
  merge_index = λ idx other. other;
  hash_to_server = λ idx hash. 0;
  index_zserver = λ idx. idx;
  radix = λ idx. 0;
  is_set = λ idx i. true;
  server_for_index = λ idx i. 0;
  name_hash = λ name. name;
  put_varint64 = λ n. n ∷ [];
  lookups = listed LookupStat;
  indexes = listed ℕ;
}

abbrev settings : CliConfig
settings = record {
  paranoid_checks = true;
  atomic_path_resolution = true;
  max_redirects_allowed = 3;
  num_servers = 1;
  session_id = 1;
  uid = 7;
  gid = 8;
}

-- A directory with all permissions and a lease.
abbrev directory : LookupStat
directory = record {
  reg_id = 0;
  snap_id = 0;
  inode_no = 5;
  zeroth_server = 0;
  dir_mode = 16895;
  user_id = 1;
  group_id = 1;
  lease_due = 1000;
}

abbrev finds_directories : Service ℕ
finds_directories (Calls.lookup b) s = (done (ok directory), s)
finds_directories (readidx b) s = (done (ok []), s)
finds_directories c s = (done (err not_supported), s)

abbrev sends_away : Service ℕ
sends_away c s = (redirect [], s)

-- The world is the clock.
abbrev with_servers : Service ℕ → Outside ℕ
with_servers mds = record { current_micros = λ t. (t, t + 1); get = λ n. mds }

abbrev fresh : Cli common ℕ
fresh = record { lookup_cache = []; index_cache = []; world = 100 }

abbrev entry_options : BaseOptions
entry_options = record {
  dir_id = root;
  session_id = 1;
  op_due = 99;
  name_hash = 97 ∷ [];
  name = [];
}

routed-is_running_example :
    is_running
      (routed common settings
        (with_servers sends_away)
        3
        (fstat entry_options)
        entry_options
        (λ r. true)
        0
        fresh).0
    ≡ false
routed-is_running_example =
    routed-is_running common (with_servers sends_away) (fstat entry_options) (λ n w e. cc) settings
      3 entry_options (λ r. true) 0 fresh (omega arith) (omega arith) (omega arith)

-- "/a//b".
resolve_path-spell_example :
    resolve_path common settings
      (with_servers finds_directories)
      3
      (spell ((0, 97 ∷ []) ∷ []) (1, 98 ∷ []))
      none
      fresh
    ≡ follow common settings
        (with_servers finds_directories)
        3
        (slash ∷ [])
        ((0, 97 ∷ []) ∷ [])
        (1, 98 ∷ [])
        (start_info none)
        fresh
unfolding bytes_eq
resolve_path-spell_example =
    resolve_path-spell common settings (with_servers finds_directories) 3 ((0, 97 ∷ []) ∷ [])
      (1, 98 ∷ []) none fresh ((refl, (omega arith, tt), refl, refl), tt)
      (refl, (omega arith, tt), refl, refl)

abbrev key : Bytes
key = 0 ∷ 0 ∷ 0 ∷ 97 ∷ []

abbrev after_lookup : Cli common ℕ
after_lookup = record {
  lookup_cache = (key, directory) ∷ [];
  index_cache = (0 ∷ 0 ∷ 0 ∷ [], 0) ∷ [];
  world = 101;
}

first_lookup :
    Find.lookup common settings (with_servers finds_directories) 3 root (97 ∷ []) 0 500 fresh
    ≡ (returned directory, after_lookup)
unfolding Find.lookup find Find.fetch_index Find.lookup_key Redirect.routed Redirect.send
    Redirect.settle Redirect.index_key
first_lookup = refl

lookup-lookup_example :
    Find.lookup common settings (with_servers finds_directories) 3 root (97 ∷ []) 0 500 after_lookup
    ≡ (
      returned directory,
      looked common settings (with_servers finds_directories) 3 root (97 ∷ []) after_lookup,
    )
lookup-lookup_example =
    lookup-lookup common settings (with_servers finds_directories) 3 listed-IsLru root (97 ∷ []) 0
      500 directory fresh after_lookup first_lookup (omega arith) (omega arith) (omega arith)
