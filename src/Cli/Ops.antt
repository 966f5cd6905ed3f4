-- ===== src/Cli/Ops.antt =====
-- The operations on one entry of `MDS::CLI` in src/libdeltafs/mds_cli.cc: Fstat, Fcreat, Unlink,
-- Chmod, Chown and Ftruncate.
use deltafs.Prelude.{
  ℕ, ◌+◌, ◌*◌, ◌/◌, ◌%◌, ◌^◌, Bool, true, not, ltb, ◌==◌, [], Option, none, some, Bytes, length,
  if◌then◌else◌,
}
use deltafs.Mds.Types.{
  already_exists, not_supported, invalid_argument, file_expected, access_denied,
  invalid_file_descriptor, dir_id_eq, Stat, is_dir,
}
use deltafs.Mds.Rpc.Calls.{BaseOptions, NewOptions}
use deltafs.Cli.State.{Common, CliConfig, Outside, Do, ◌>>=◌, pure, fail, max_micros, Fentry}
use deltafs.Cli.Redirect.{send_fstat, send_fcreat, send_chmod, send_chown, send_unlink, send_trunc}
use deltafs.Cli.Find.{fetch_index, about, due_of, paranoid_name}
use deltafs.Cli.Resolve.{PathInfo, is_write_dir_ok, is_plfs, root_id, root_mode, resolve_path}

-- DELTAFS_NAME_MAX.
abbrev pub name_max : ℕ
name_max = 255

-- O_EXCL under a condition.
abbrev pub excl_if : Bool → ℕ
excl_if b = if b then 128 else 0

-- The directory that a path starts from must be one.
abbrev pub starts_at_dir : Option Fentry → Bool
starts_at_dir none = true
starts_at_dir (some at) = is_dir at.stat.file_mode

abbrev pub root_stat : Stat
root_stat = record {
  reg_id = 0;
  snap_id = 0;
  inode_no = 0;
  file_size = 0;
  file_mode = root_mode;
  zeroth_server = 0;
  user_id = 0;
  group_id = 0;
  modify_time = 0;
  change_time = 0;
}

-- The permissions without S_IXUSR, S_IXGRP and S_IXOTH.
abbrev pub no_exec : ℕ → ℕ
no_exec m = m / 2 % 4 * 2 + m / 16 % 4 * 16 + m / 128 % 4 * 128

-- A file below a directory of the plfs style, for which no server is asked.
unfoldable pub plfs_entry : PathInfo → Fentry
plfs_entry p = record {
  pid = p.pid;
  nhash = p.nhash;
  zserver = p.zserver;
  stat = record {
    reg_id = p.pid.reg;
    snap_id = p.pid.snap;
    inode_no = 0;
    file_size = 0;
    file_mode = 2 ^ 16 + 8 * 2 ^ 12 + no_exec p.mode;
    zeroth_server = p.zserver;
    user_id = p.uid;
    group_id = p.gid;
    modify_time = 0;
    change_time = 0;
  };
}

abbrev pub fentry : PathInfo → Stat → Fentry
fentry p stat = record { pid = p.pid; nhash = p.nhash; zserver = p.zserver; stat = stat }

abbrev pub new_options : CliConfig → Bool → ℕ → NewOptions
new_options cfg error_if_exists mode = record {
  flags = excl_if error_if_exists;
  mode = mode;
  uid = cfg.uid;
  gid = cfg.gid;
}

module _ (x : Common) {S : Type 0} (cfg : CliConfig) (out : Outside S) (fuel : ℕ) where
  -- The call on the entry of a path: its index, then the server.
  abbrev pub at_entry :
      {A : Type 0} → PathInfo → Bytes → (x.Index → BaseOptions → Do x S A) → Do x S A
  at_entry p name act = fetch_index x cfg out p.pid p.zserver >>= λ idx.
      act idx (about cfg p.pid (due_of cfg p.lease_due) p.nhash name)

  -- An entry that the caller has open: `at` of Fstat, the file of Ftruncate.
  abbrev pub at_open : {A : Type 0} → Fentry → (x.Index → BaseOptions → Do x S A) → Do x S A
  at_open ent act = fetch_index x cfg out ent.pid ent.zserver >>= λ idx.
      act idx (about cfg ent.pid max_micros ent.nhash [])

  abbrev pub fstat_root : Option Fentry → Do x S Fentry
  fstat_root none s = pure (record { pid = root_id; nhash = []; zserver = 0; stat = root_stat }) s
  fstat_root (some at) s =
      if dir_id_eq (record { reg = at.stat.reg_id; snap = at.stat.snap_id; ino = at.stat.inode_no })
        root_id
      then pure (record { pid = root_id; nhash = []; zserver = 0; stat = root_stat }) s
      else (at_open at (λ idx b. send_fstat x cfg out fuel idx b) >>= λ stat.
            pure (record at { stat = stat }))
          s

  unfoldable pub fstat : Bytes → Option Fentry → Do x S Fentry
  fstat path at =
      if not (starts_at_dir at)
      then fail invalid_argument
      else resolve_path x cfg out fuel path at >>= λ p.
          if p.depth == 0
          then fstat_root at
          else if is_plfs p.mode
          then pure (plfs_entry p)
          else at_entry p (paranoid_name cfg p.name) (λ idx b. send_fstat x cfg out fuel idx b)
            >>= λ stat. pure (fentry p stat)

  -- The entry, and what `*created` is set to, if it is.
  unfoldable pub fcreat : Bytes → ℕ → Bool → Option Fentry → Do x S (Fentry × Option ℕ)
  fcreat path mode error_if_exists at =
      if not (starts_at_dir at)
      then fail invalid_file_descriptor
      else resolve_path x cfg out fuel path at >>= λ p.
          if p.depth == 0
          then fail already_exists
          else if not (is_write_dir_ok cfg p)
          then fail access_denied
          else if is_plfs p.mode
          then if error_if_exists then fail not_supported else pure (plfs_entry p, none)
          else if ltb name_max (length p.name)
          then fail invalid_argument
          else at_entry p p.name
              (λ idx b. send_fcreat x cfg out fuel idx b (new_options cfg error_if_exists mode))
            >>= λ ret. pure (fentry p ret.stat, some ret.created)

  unfoldable pub unlink : Bytes → Bool → Option Fentry → Do x S Fentry
  unlink path error_if_absent at =
      if not (starts_at_dir at)
      then fail invalid_argument
      else resolve_path x cfg out fuel path at >>= λ p.
          if p.depth == 0
          then fail file_expected
          else if not (is_write_dir_ok cfg p)
          then fail access_denied
          else if is_plfs p.mode
          then fail not_supported
          else at_entry p (paranoid_name cfg p.name)
              (λ idx b. send_unlink x cfg out fuel idx b (excl_if error_if_absent))
            >>= λ stat. pure (fentry p stat)

  unfoldable pub chmod : Bytes → ℕ → Do x S Fentry
  chmod path mode = resolve_path x cfg out fuel path none >>= λ p.
      if p.depth == 0
      then fail not_supported
      else if is_plfs p.mode
      then fail not_supported
      else at_entry p (paranoid_name cfg p.name) (λ idx b. send_chmod x cfg out fuel idx b mode)
        >>= λ stat. pure (fentry p stat)

  unfoldable pub chown : Bytes → ℕ → ℕ → Do x S Fentry
  chown path usr grp = resolve_path x cfg out fuel path none >>= λ p.
      if p.depth == 0
      then fail not_supported
      else if is_plfs p.mode
      then fail not_supported
      else at_entry p (paranoid_name cfg p.name)
          (λ idx b. send_chown x cfg out fuel idx b (record { uid = usr; gid = grp }))
        >>= λ stat. pure (fentry p stat)

  unfoldable pub ftruncate : Fentry → ℕ → ℕ → Do x S (Unit {0})
  ftruncate ent mtime size =
      at_open ent (λ idx b. send_trunc x cfg out fuel idx b (record { mtime = mtime; size = size }))
      >>= λ stat. pure tt
