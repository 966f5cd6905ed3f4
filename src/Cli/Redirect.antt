-- ===== src/Cli/Redirect.antt =====
-- How `MDS::CLI` sends a call on an entry to the server that has it: `_Lookup`, `_Fstat`, `_Fcreat`,
-- `_Mkdir`, `_Chmod`, `_Chown` and `_Unlink` of src/libdeltafs/mds_cli.cc, and the same loop in
-- Ftruncate.
use deltafs.Prelude.{
  ℕ, zero, suc, Bool, true, false, ◌||◌, not, ◌==◌, ◌++◌, Option, none, some, Bytes,
}
use deltafs.Mds.Types.{ok, err, Error, try_again, corruption, DirId, Stat, is_dir, is_reg}
use deltafs.Mds.Server.{Reply, done, redirect}
use deltafs.Mds.Handler.{dec32}
use deltafs.Mds.Rpc.Wire.{LookupStat}
use deltafs.Mds.Rpc.Calls.{
  Call, fstat, lookup, fcreat, mkdir, chmod, unlink, chown, trunc, Ret, Service, BaseOptions,
  NewOptions, OwnerOptions, SizeOptions, Created,
}
use deltafs.Cli.State.{
  Common, CliConfig, Cli, Outside, Out, returned, running, Do, ◌>>=◌, ◌>>◌, pure, fail,
}

abbrev pub is_try_again : Error → Bool
is_try_again try_again = true
is_try_again _ = false

-- What is left to do, by the index in use and the redirects that remain.
abbrev pub Loop : Common → Type 0 → Type 0 → Type 0
Loop x S A = Option x.Index → ℕ → Do x S (A × Option x.Index)

module _ (x : Common) where
  -- The index that a redirection updates: a copy of the one that the call began with.
  abbrev pub copied : x.Index → Option x.Index → x.Index
  copied idx none = x.merge_index x.new_index idx
  copied idx (some tmp) = tmp

  abbrev pub latest : x.Index → Option x.Index → x.Index
  latest idx none = idx
  latest idx (some tmp) = tmp

  -- IndexCache::LRUKey.
  unfoldable pub index_key : DirId → Bytes
  index_key id = x.put_varint64 id.reg ++ (x.put_varint64 id.snap ++ x.put_varint64 id.ino)

module _ (x : Common) {S : Type 0} where
  -- One call on a server.
  abbrev pub ask : (c : Call) → Service S → Cli x S → Reply (Ret c) × Cli x S
  ask c mds s = let (r, world) = mds c s.world in (r, record s { world = world })

  module _ {A : Type 0} where
    abbrev pub moved : Loop x S A → ℕ → Option x.Index → Do x S (A × Option x.Index)
    moved again remaining none = fail corruption
    moved again remaining (some tmp) = again (some tmp) remaining

    abbrev pub redirected : Loop x S A → x.Index → ℕ → Bytes → Bool → Do x S (A × Option x.Index)
    redirected again idx remaining re true = fail corruption
    redirected again idx remaining re false = moved again remaining (x.update_index idx re)

    -- The end of one round. `remaining` is an `int`; the number is its 32-bit pattern.
    unfoldable pub settle :
        Loop x S A → x.Index → Option x.Index → ℕ → Reply A → Do x S (A × Option x.Index)
    settle again idx tmp remaining (done (ok a)) = pure (a, tmp)
    settle again idx tmp remaining (done (err e)) = elim (is_try_again e) [
      | true ↦ again tmp remaining
      | false ↦ fail e
    ]
    settle again idx tmp remaining (redirect re) =
        redirected again (copied x idx tmp) (dec32 remaining) re (dec32 remaining == 0)

  module _ (out : Outside S) (c : Call) (name_hash : Bytes) where
    abbrev pub settled :
        Loop x S (Ret c)
        → x.Index
        → Option x.Index
        → ℕ
        → Reply (Ret c) × Cli x S
        → Out (Ret c × Option x.Index) × Cli x S
    settled again idx tmp remaining (r, s) = settle again idx tmp remaining r s

    -- The loop, on fuel for its rounds.
    unfoldable pub send : ℕ → x.Index → Option x.Index → ℕ → Do x S (Ret c × Option x.Index)
    send zero idx tmp remaining s = (running, s)
    send (suc fuel) idx tmp remaining s =
        settled (λ t r. send fuel idx t r) idx tmp remaining
          (ask c (out.get (x.hash_to_server (latest x idx tmp) name_hash)) s)

  abbrev pub keep_index : DirId → Option x.Index → Do x S (Unit {0})
  keep_index id none s = (returned tt, s)
  keep_index id (some tmp) s =
      (returned tt, record s { index_cache = x.indexes.insert (index_key x id) tmp s.index_cache })

  -- A result that is refused leaves the cache alone.
  abbrev pub keep_if : {A : Type 0} → DirId → A → Option x.Index → Bool → Do x S A
  keep_if id ret tmp false = fail corruption
  keep_if id ret tmp true = do keep_index id tmp; pure ret

  module _ (cfg : CliConfig) (out : Outside S) (fuel : ℕ) where
    -- A call, the check of its result, and then the cache, if there was a redirection.
    unfoldable pub routed : (c : Call) → BaseOptions → (Ret c → Bool) → x.Index → Do x S (Ret c)
    routed c b valid idx = do
      (ret, tmp) ← send out c b.name_hash fuel idx none cfg.max_redirects_allowed
      keep_if b.dir_id ret tmp (not cfg.paranoid_checks || valid ret)

    abbrev pub send_lookup : x.Index → BaseOptions → Do x S LookupStat
    send_lookup idx b = routed (lookup b) b (λ r. is_dir r.dir_mode) idx

    abbrev pub send_fstat : x.Index → BaseOptions → Do x S Stat
    send_fstat idx b = routed (fstat b) b (λ r. true) idx

    abbrev pub send_fcreat : x.Index → BaseOptions → NewOptions → Do x S Created
    send_fcreat idx b o = routed (fcreat b o) b (λ r. is_reg r.stat.file_mode) idx

    abbrev pub send_mkdir : x.Index → BaseOptions → NewOptions → Do x S Stat
    send_mkdir idx b o = routed (mkdir b o) b (λ r. is_dir r.file_mode) idx

    abbrev pub send_chmod : x.Index → BaseOptions → ℕ → Do x S Stat
    send_chmod idx b mode = routed (chmod b mode) b (λ r. true) idx

    abbrev pub send_chown : x.Index → BaseOptions → OwnerOptions → Do x S Stat
    send_chown idx b o = routed (chown b o) b (λ r. true) idx

    abbrev pub send_unlink : x.Index → BaseOptions → ℕ → Do x S Stat
    send_unlink idx b flags = routed (unlink b flags) b (λ r. true) idx

    abbrev pub send_trunc : x.Index → BaseOptions → SizeOptions → Do x S Stat
    send_trunc idx b o = routed (trunc b o) b (λ r. is_reg r.file_mode) idx
