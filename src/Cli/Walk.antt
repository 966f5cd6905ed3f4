-- ===== src/Cli/Walk.antt =====
-- Paths without dots, and the walk over their names that ResolvePath of
-- src/libdeltafs/mds_cli.cc stands for.
pub mod Names
pub mod Agrees
use deltafs.Prelude.{
  ℕ, zero, suc, ◌+◌, ◌≡◌, ◌≢◌, refl, sym, ◌∙◌, Bool, true, false, not, ◌==◌, ==_iff, Bool-cases,
  ◌⊎◌, inl, inr, List, [], ◌∷◌, ◌++◌, Option, none, some, Bytes, bytes_eq, is_empty, replicate, All,
  if◌then◌else◌, arith, ap,
}
use mathlib.Core.List.{append_assoc, append-nil}
use deltafs.Mds.Types.{access_denied, not_supported, DirId}
use deltafs.Mds.Rpc.Wire.{LookupStat}
use deltafs.Cli.State.{
  Common, CliConfig, Cli, Outside, Out, returned, failed, thrown, running, Do, ◌>>=◌, bind, pure,
  fail, Fentry,
}
use deltafs.Cli.Find.{lookup}
use deltafs.Cli.Resolve.{
  PathInfo, Walk, is_lookup_ok, is_plfs, slash, dot, start, start_info, min, entered, missing_at,
  component, descend, scan, last_component, with_due, resolve_path,
}

-- A name as it stands in a path: after one slash and as many more as the number says.
abbrev pub Spelled : Type 0
Spelled = ℕ × Bytes

abbrev pub slashes : ℕ → Bytes
slashes k = replicate k slash

-- The path of an entry in a directory, without the first slash.
abbrev pub spell_rest : List Spelled → Spelled → Bytes
spell_rest [] (k, name) = slashes k ++ name
spell_rest ((k, name) ∷ dirs) entry = slashes k ++ (name ++ slash ∷ spell_rest dirs entry)

abbrev pub spell : List Spelled → Spelled → Bytes
spell dirs entry = slash ∷ spell_rest dirs entry

-- A name that is not empty, has no slash, and is neither `.` nor `..`.
abbrev pub IsPlain : Spelled → Type 0
IsPlain (k, name) =
    (is_empty name ≡ false)
    × All (λ c. c ≢ slash) name
    × (bytes_eq name (dot ∷ dot ∷ []) ≡ false)
    × (bytes_eq name (dot ∷ []) ≡ false)

-- The directory that a lookup found below `p`.
abbrev pub found : Bytes → LookupStat → PathInfo → PathInfo
found name stat p = record p {
  pid = record { reg = stat.reg_id; snap = stat.snap_id; ino = stat.inode_no };
  name = name;
  lease_due = min p.lease_due stat.lease_due;
  zserver = stat.zeroth_server;
  depth = p.depth + 1;
  mode = stat.dir_mode;
  uid = stat.user_id;
  gid = stat.group_id;
}

module _ (x : Common) {S : Type 0} (cfg : CliConfig) (out : Outside S) (fuel : ℕ) where
  -- The walk: each directory must let the client search it and not be of the plfs style, and the
  -- names of the directories are looked up from the first to the last. `seen` is the path so far.
  unfoldable pub follow : Bytes → List Spelled → Spelled → PathInfo → Do x S PathInfo
  follow seen [] (k, name) p =
      if not (is_lookup_ok cfg p)
      then fail access_denied
      else pure (record p { nhash = x.name_hash name; name = name; depth = p.depth + 1 })
  follow seen ((k, name) ∷ dirs) entry p =
      if not (is_lookup_ok cfg p)
      then fail access_denied
      else if is_plfs p.mode
      then fail not_supported
      else (λ s.
          missing_at ((seen ++ slashes k) ++ name)
            (lookup x cfg out fuel p.pid name p.zserver p.lease_due s))
        >>= λ stat.
            follow ((seen ++ slashes k) ++ (name ++ slash ∷ [])) dirs entry (found name stat p)
