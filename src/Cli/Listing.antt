-- ===== src/Cli/Listing.antt =====
-- Listdir, Accessdir and Access of src/libdeltafs/mds_cli.cc.
use deltafs.Prelude.{
  ℕ, zero, suc, ◌+◌, ◌^◌, Bool, true, false, ◌&&◌, ◌||◌, not, leb, ◌==◌, List, [], ◌∷◌, ◌++◌, none,
  Bytes, length, if◌then◌else◌,
}
use deltafs.Mds.Types.{ok, err, not_supported, access_denied}
use deltafs.Mds.Server.{Reply, done, redirect}
use deltafs.Cli.State.{
  Common, CliConfig, Cli, Outside, Out, returned, thrown, Do, ◌>>=◌, pure, fail,
}
use deltafs.Cli.Access.{has_bit, has_access}
use deltafs.Cli.Redirect.{ask}
use deltafs.Cli.Find.{fetch_index, due_of}
use deltafs.Cli.Resolve.{
  PathInfo, is_read_dir_ok, is_write_dir_ok, is_lookup_ok, is_plfs, slash, resolve_path,
}
use deltafs.Mds.Rpc.Calls
use deltafs.Cli.Ops.{fstat}

module _ (x : Common) {S : Type 0} (cfg : CliConfig) (out : Outside S) (fuel : ℕ) where
  -- The names that a server gives; its status is not looked at.
  abbrev pub gather : List Bytes → Reply (List Bytes) × Cli x S → Out (List Bytes) × Cli x S
  gather names (done (ok more), s) = (returned (names ++ more), s)
  gather names (done (err e), s) = (returned names, s)
  gather names (redirect idx, s) = (thrown idx, s)

  abbrev pub visited_before : ℕ → List ℕ → Bool
  visited_before n [] = false
  visited_before n (m ∷ ms) = (n == m) || visited_before n ms

  -- The loop over the partitions of a directory, from the `i`-th. Each server is asked once.
  unfoldable pub list_parts : PathInfo → x.Index → ℕ → ℕ → List ℕ → List Bytes → Do x S (List Bytes)
  list_parts p idx zero i visited names = pure names
  list_parts p idx (suc parts) i visited names =
      let server = x.server_for_index idx i in
      elim (x.is_set idx i && not (visited_before server visited)) [
        | false ↦ list_parts p idx parts (i + 1) visited names
        | true ↦
            (λ s. gather names (
              ask x
                (Calls.listdir (record {
                  dir_id = p.pid;
                  session_id = cfg.session_id;
                  op_due = due_of cfg p.lease_due;
                }))
                (out.get server) s))
            >>= λ more.
                if leb cfg.num_servers (length (server ∷ visited))
                then pure more
                else list_parts p idx parts (i + 1) (server ∷ visited) more
      ]

  -- The path of a directory is resolved as that of an entry below it.
  abbrev pub below : Bytes → Bytes
  below path = path ++ slash ∷ 95 ∷ []

  unfoldable pub listdir : Bytes → Do x S (List Bytes)
  listdir path = resolve_path x cfg out fuel (below path) none >>= λ p.
      if not (is_read_dir_ok cfg p)
      then fail access_denied
      else if is_plfs p.mode
      then fail not_supported
      else fetch_index x cfg out p.pid p.zserver >>= λ idx.
          list_parts p idx (2 ^ x.radix idx) 0 [] []

  unfoldable pub accessdir : Bytes → ℕ → Do x S (Unit {0})
  accessdir path mode = resolve_path x cfg out fuel (below path) none >>= λ p.
      if has_bit mode 2 && not (is_read_dir_ok cfg p)
      then fail access_denied
      else if has_bit mode 1 && not (is_write_dir_ok cfg p)
      then fail access_denied
      else if has_bit mode 0 && not (is_lookup_ok cfg p)
      then fail access_denied
      else pure tt

  unfoldable pub access : Bytes → ℕ → Do x S (Unit {0})
  access path mode = fstat x cfg out fuel path none >>= λ ent.
      if not (has_access cfg mode ent.stat) then fail access_denied else pure tt
