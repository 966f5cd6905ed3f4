-- ===== src/Cli/Parents.antt =====
-- Mkdir of src/libdeltafs/mds_cli.cc, which can make the missing parents too.
use deltafs.Prelude.{
  ℕ, zero, suc, ◌+◌, ◌*◌, ◌/◌, ◌%◌, ◌^◌, Bool, true, false, not, ltb, ◌==◌, [], ◌∷◌, none, Bytes,
  length, if◌then◌else◌,
}
use deltafs.Mds.Types.{not_found, already_exists, not_supported, invalid_argument, access_denied}
use deltafs.Cli.State.{
  Common, CliConfig, Cli, Outside, Out, returned, failed, thrown, running, Do, ◌>>=◌, pure, fail,
  Fentry,
}
use deltafs.Cli.Redirect.{send_mkdir}
use deltafs.Cli.Resolve.{PathInfo, is_write_dir_ok, is_plfs, resolve_path}
use deltafs.Cli.Ops.{at_entry, new_options, name_max, fentry}

module _ (x : Common) {S : Type 0} (cfg : CliConfig) (out : Outside S) (fuel : ℕ) where
  -- Mkdir once the path is resolved.
  unfoldable pub mkdir_at : ℕ → Bool → PathInfo → Do x S Fentry
  mkdir_at mode error_if_exists p =
      if p.depth == 0
      then fail already_exists
      else if not (is_write_dir_ok cfg p)
      then fail access_denied
      else if is_plfs p.mode
      then fail not_supported
      else if ltb name_max (length p.name)
      then fail invalid_argument
      else at_entry x cfg out fuel p p.name
          (λ idx b. send_mkdir x cfg out fuel idx b (new_options cfg error_if_exists mode))
        >>= λ stat. pure (fentry p stat)

  -- mode & ~DELTAFS_DIR_MASK.
  abbrev pub plain_mode : ℕ → ℕ
  plain_mode mode = mode % 2 ^ 16 + mode / 2 ^ 20 * 2 ^ 20

  abbrev pub Mkdir : Type 0
  Mkdir = Bytes → ℕ → Bool → Bool → Do x S Fentry

  -- Mkdir with the outcome of ResolvePath, over Mkdir itself for the missing parents.
  unfoldable pub mkdir_with : Mkdir → Mkdir
  mkdir_with again path mode create_if_missing error_if_exists s =
      after (resolve_path x cfg out fuel path none s)
    where
      make_parents : Bytes → Do x S Fentry
      make_parents [] = fail not_found
      make_parents (c ∷ missing) = again (c ∷ missing) (plain_mode mode) true false >>= λ ent.
          again path mode true error_if_exists

      after : Out PathInfo × Cli x S → Out Fentry × Cli x S
      after (returned p, s) = mkdir_at mode error_if_exists p s
      after (failed not_found missing, s) = elim create_if_missing [
        | true ↦ make_parents missing s
        | false ↦ (failed not_found missing, s)
      ]
      after (failed e missing, s) = (failed e missing, s)
      after (thrown idx, s) = (thrown idx, s)
      after (running, s) = (running, s)

  -- The recursion, on fuel for its depth.
  unfoldable pub mkdir : ℕ → Mkdir
  mkdir zero path mode create_if_missing error_if_exists s = (running, s)
  mkdir (suc rounds) path mode create_if_missing error_if_exists s =
      mkdir_with (λ p m c e. mkdir rounds p m c e) path mode create_if_missing error_if_exists s
