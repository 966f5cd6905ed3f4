-- ===== src/Cli/Resolve.antt =====
-- ResolvePath of src/libdeltafs/mds_cli.cc.
use deltafs.Prelude.{
  ℕ, ◌+◌, ◌-◌, ◌*◌, ◌/◌, ◌%◌, ◌^◌, Bool, ltb, ◌==◌, List, [], ◌∷◌, ◌++◌, Option, none, some, Bytes,
  not, bytes_eq, is_empty, get_or, if◌then◌else◌,
}
use deltafs.Mds.Types.{not_found, access_denied, not_supported, DirId}
use deltafs.Mds.Rpc.Wire.{LookupStat}
use deltafs.Cli.State.{
  Common, CliConfig, Cli, Outside, Out, returned, failed, thrown, running, Do, ◌>>=◌, pure, fail,
  max_micros, Fentry,
}
use deltafs.Cli.Access.{allowed}
use deltafs.Cli.Find.{lookup}

pub record PathInfo : Type 0 where
  pub pid : DirId
  pub nhash : Bytes
  pub name : Bytes
  pub lease_due : ℕ
  pub zserver : ℕ
  pub depth : ℕ
  pub mode : ℕ
  pub uid : ℕ
  pub gid : ℕ

module _ (cfg : CliConfig) where
  abbrev pub is_read_dir_ok : PathInfo → Bool
  is_read_dir_ok p = allowed cfg 2 p.mode p.uid p.gid

  abbrev pub is_write_dir_ok : PathInfo → Bool
  is_write_dir_ok p = allowed cfg 1 p.mode p.uid p.gid

  abbrev pub is_lookup_ok : PathInfo → Bool
  is_lookup_ok p = allowed cfg 0 p.mode p.uid p.gid

-- DELTAFS_DIR_IS_PLFS_STYLE.
abbrev pub is_plfs : ℕ → Bool
is_plfs mode = mode / 2 ^ 16 % 2 ^ 4 == 1

-- The characters '/' and '.'.
abbrev pub slash : ℕ
slash = 47

abbrev pub dot : ℕ
dot = 46

-- S_IFDIR | (ACCESSPERMS & ~S_IWOTH).
abbrev pub root_mode : ℕ
root_mode = 4 * 2 ^ 12 + 509

abbrev pub root_id : DirId
root_id = record { reg = 0; snap = 0; ino = 0 }

abbrev pub start_info : Option Fentry → PathInfo
start_info none = record {
  pid = root_id;
  nhash = [];
  name = slash ∷ [];
  lease_due = max_micros;
  zserver = 0;
  depth = 0;
  mode = root_mode;
  uid = 0;
  gid = 0;
}
start_info (some at) = record {
  pid = record { reg = at.stat.reg_id; snap = at.stat.snap_id; ino = at.stat.inode_no };
  nhash = [];
  name = slash ∷ [];
  lease_due = max_micros;
  zserver = at.stat.zeroth_server;
  depth = 0;
  mode = at.stat.file_mode;
  uid = at.stat.user_id;
  gid = at.stat.group_id;
}

-- The variables of the loop: `*result`, `parents`, `lease_due` and `depth`.
pub record Walk : Type 0 where
  pub result : PathInfo
  pub parents : List PathInfo
  pub lease_due : ℕ
  pub depth : ℕ

abbrev pub start : Option Fentry → Walk
start at = record {
  result = start_info at;
  parents = start_info at ∷ start_info at ∷ [];
  lease_due = max_micros;
  depth = 0;
}

-- The `i`-th of the parents; an assertion says that there is one.
abbrev pub parent : ℕ → Walk → PathInfo
parent i w = get_or w.parents i w.result

abbrev pub min : ℕ → ℕ → ℕ
min a b = if ltb b a then b else a

-- The directory that a lookup found.
unfoldable pub entered : Bytes → LookupStat → Walk → Walk
entered name stat w =
    let named = record w.result { name = name } in
    record {
      result = record named {
        pid = record { reg = stat.reg_id; snap = stat.snap_id; ino = stat.inode_no };
        zserver = stat.zeroth_server;
        mode = stat.dir_mode;
        uid = stat.user_id;
        gid = stat.group_id;
      };
      parents = w.parents ++ named ∷ [];
      lease_due = min w.lease_due stat.lease_due;
      depth = w.depth + 1;
    }

-- `..` before a slash.
unfoldable pub up : Walk → Walk
up w = record w { result = parent (w.depth + 1) w; depth = w.depth - 1 }

abbrev pub missing_at : {x : Common} {S A : Type 0} → Bytes → Out A × Cli x S → Out A × Cli x S
missing_at text (failed not_found missing, s) = (failed not_found text, s)
missing_at text (failed e missing, s) = (failed e missing, s)
missing_at text (returned a, s) = (returned a, s)
missing_at text (thrown idx, s) = (thrown idx, s)
missing_at text (running, s) = (running, s)

module _ (x : Common) {S : Type 0} (cfg : CliConfig) (out : Outside S) (fuel : ℕ) where
  -- A name below the directory; `text` is the path up to the name.
  unfoldable pub descend : Bytes → Bytes → Walk → Do x S Walk
  descend text name w =
      (λ s.
        missing_at text (lookup x cfg out fuel w.result.pid name w.result.zserver w.lease_due s))
      >>= λ stat. pure (entered name stat w)

  -- A component that a slash ends.
  unfoldable pub component : Bytes → Bytes → Walk → Do x S Walk
  component text name w =
      if is_empty name
      then pure w
      else if not (is_lookup_ok cfg w.result)
      then fail access_denied
      else if bytes_eq name (dot ∷ dot ∷ [])
      then pure (up w)
      else if bytes_eq name (dot ∷ [])
      then pure w
      else if is_plfs w.result.mode
      then fail not_supported
      else descend text name w

  -- The loop over the slashes of `input`, of which `name` is read. `seen` is what comes before.
  unfoldable pub scan : Bytes → Bytes → Bytes → Walk → Do x S (Walk × Bytes)
  scan seen name [] w = pure (w, name)
  scan seen name (c ∷ input) w =
      if c == slash
      then component (seen ++ name) name w >>= (λ w'. scan (seen ++ (name ++ c ∷ [])) [] input w')
      else scan seen (name ++ c ∷ []) input w

  abbrev pub with_due : PathInfo → ℕ → ℕ → PathInfo
  with_due p lease_due depth = record p { lease_due = lease_due; depth = depth }

  -- What comes after the last slash.
  unfoldable pub last_component : Walk × Bytes → Do x S PathInfo
  last_component (w, input) =
      if is_empty input
      then pure (with_due w.result w.lease_due w.depth)
      else if not (is_lookup_ok cfg w.result)
      then fail access_denied
      else if bytes_eq input (dot ∷ dot ∷ [])
      then pure (with_due (parent w.depth w) w.lease_due (w.depth - 1))
      else if bytes_eq input (dot ∷ [])
      then pure (with_due (parent (w.depth + 1) w) w.lease_due w.depth)
      else pure (
          with_due (record w.result { nhash = x.name_hash input; name = input }) w.lease_due
            (w.depth + 1))

  abbrev pub after_slash : Bytes → Bytes
  after_slash [] = []
  after_slash (c ∷ input) = input

  -- The path begins with a slash.
  unfoldable pub resolve_path : Bytes → Option Fentry → Do x S PathInfo
  resolve_path path at = scan (slash ∷ []) [] (after_slash path) (start at) >>= last_component
