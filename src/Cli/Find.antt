-- ===== src/Cli/Find.antt =====
-- FetchIndex and Lookup of src/libdeltafs/mds_cli.cc, with the two caches of util/index_cache.cc and
-- util/lookup_cache.cc.
use deltafs.Prelude.{
  ℕ, ◌+◌, ◌%◌, Bool, true, false, ltb, ◌==◌, [], ◌++◌, Option, none, some, Bytes, if◌then◌else◌,
}
use deltafs.Mds.Types.{ok, err, corruption, DirId, u64_mod}
use deltafs.Mds.Server.{Reply, done, redirect}
use deltafs.Mds.Rpc.Wire.{LookupStat}
use deltafs.Mds.Rpc.Calls.{readidx, BaseOptions}
use deltafs.Cli.State.{
  Common, CliConfig, Cli, Outside, Out, returned, failed, thrown, Do, ◌>>=◌, ◌>>◌, pure, fail,
  max_micros,
}
use deltafs.Cli.Redirect.{ask, index_key, send_lookup}

module _ (x : Common) where
  -- LookupCache::LRUKey.
  unfoldable pub lookup_key : DirId → Bytes → Bytes
  lookup_key pid nhash =
      x.put_varint64 pid.reg ++ (x.put_varint64 pid.snap ++ (x.put_varint64 pid.ino ++ nhash))

-- The end of a call without redirections: what is thrown goes on.
abbrev pub plain : {x : Common} {S A : Type 0} → Reply A × Cli x S → Out A × Cli x S
plain (done (ok a), s) = (returned a, s)
plain (done (err e), s) = (failed e [], s)
plain (redirect idx, s) = (thrown idx, s)

-- The options of a call that names an entry.
abbrev pub about : CliConfig → DirId → ℕ → Bytes → Bytes → BaseOptions
about cfg id op_due nhash name = record {
  dir_id = id;
  session_id = cfg.session_id;
  op_due = op_due;
  name_hash = nhash;
  name = name;
}

abbrev pub due_of : CliConfig → ℕ → ℕ
due_of cfg op_due = if cfg.atomic_path_resolution then op_due else max_micros

abbrev pub paranoid_name : CliConfig → Bytes → Bytes
paranoid_name cfg name = if cfg.paranoid_checks then name else []

module _ (x : Common) {S : Type 0} where
  -- LookupCache and IndexCache.
  abbrev pub cached_lookup : DirId → Bytes → Do x S (Option LookupStat)
  cached_lookup pid nhash s =
      let (found, cache) = x.lookups.find (lookup_key x pid nhash) s.lookup_cache in
      (returned found, record s { lookup_cache = cache })

  abbrev pub insert_lookup : DirId → Bytes → LookupStat → Do x S (Unit {0})
  insert_lookup pid nhash stat s = (
    returned tt,
    record s { lookup_cache = x.lookups.insert (lookup_key x pid nhash) stat s.lookup_cache },
  )

  abbrev pub erase_lookup : DirId → Bytes → Do x S (Unit {0})
  erase_lookup pid nhash s = (
    returned tt,
    record s { lookup_cache = x.lookups.erase (lookup_key x pid nhash) s.lookup_cache },
  )

  abbrev pub cached_index : DirId → Do x S (Option x.Index)
  cached_index id s =
      let (found, cache) = x.indexes.find (index_key x id) s.index_cache in
      (returned found, record s { index_cache = cache })

  abbrev pub insert_index : DirId → x.Index → Do x S (Unit {0})
  insert_index id idx s =
      (returned tt, record s { index_cache = x.indexes.insert (index_key x id) idx s.index_cache })

  module _ (cfg : CliConfig) (out : Outside S) where
    abbrev pub now : Do x S ℕ
    now s = let (t, world) = out.current_micros s.world in (returned t, record s { world = world })

    abbrev pub read_index : DirId → ℕ → Do x S Bytes
    read_index id zserver s = plain (
        ask x (readidx (record { dir_id = id; session_id = cfg.session_id; op_due = max_micros }))
          (out.get (zserver % cfg.num_servers)) s)

    -- An index that came from a server.
    abbrev pub accepted : ℕ → Option x.Index → Do x S x.Index
    accepted zserver none s = fail corruption s
    accepted zserver (some idx) s = elim (x.index_zserver idx == zserver) [
      | true ↦ pure idx s
      | false ↦ fail corruption s
    ]

    abbrev pub load_index : DirId → ℕ → Do x S x.Index
    load_index id zserver = do
      encoded ← read_index id zserver
      idx ← accepted zserver (x.update_index x.new_index encoded)
      insert_index id idx
      pure idx

    abbrev pub index_or_load : DirId → ℕ → Option x.Index → Do x S x.Index
    index_or_load id zserver none = load_index id zserver
    index_or_load id zserver (some idx) = pure idx

    unfoldable pub fetch_index : DirId → ℕ → Do x S x.Index
    fetch_index id zserver = do found ← cached_index id; index_or_load id zserver found

    -- A result without a lease does not stay in the cache.
    abbrev pub drop_if : DirId → Bytes → Bool → Do x S (Unit {0})
    drop_if pid nhash true = erase_lookup pid nhash
    drop_if pid nhash false = pure tt

    abbrev pub drop_unleased : DirId → Bytes → LookupStat → Do x S (Unit {0})
    drop_unleased pid nhash stat = drop_if pid nhash (stat.lease_due == 0)

    module _ (fuel : ℕ) where
      abbrev pub ask_lookup : DirId → Bytes → ℕ → ℕ → Do x S LookupStat
      ask_lookup pid name zserver op_due = do
        idx ← fetch_index pid zserver
        stat ←
            send_lookup x cfg out fuel idx
              (about cfg pid (due_of cfg op_due) (x.name_hash name) (paranoid_name cfg name))
        insert_lookup pid (x.name_hash name) stat
        drop_unleased pid (x.name_hash name) stat
        pure stat

      -- A lease that has ended, or ends within 10 microseconds, is not used.
      abbrev pub lookup_or_ask : DirId → Bytes → ℕ → ℕ → ℕ → Option LookupStat → Do x S LookupStat
      lookup_or_ask pid name zserver op_due t none s = ask_lookup pid name zserver op_due s
      lookup_or_ask pid name zserver op_due t (some stat) s =
          if ltb stat.lease_due ((t + 10) % u64_mod)
          then ask_lookup pid name zserver op_due s
          else pure stat s

      unfoldable pub lookup : DirId → Bytes → ℕ → ℕ → Do x S LookupStat
      lookup pid name zserver op_due = do
        t ← now
        found ← cached_lookup pid (x.name_hash name)
        lookup_or_ask pid name zserver op_due t found
