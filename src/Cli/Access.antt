-- ===== src/Cli/Access.antt =====
-- The permission checks of src/libdeltafs/mds_cli.cc.
use deltafs.Prelude.{ℕ, ◌+◌, ◌/◌, ◌%◌, ◌^◌, Bool, ◌&&◌, ◌||◌, not, ◌==◌}
use deltafs.Mds.Types.{Stat}
use deltafs.Cli.State.{CliConfig}

-- Bit `b` of a mode, as in (mode & S_I...) == S_I...
abbrev pub has_bit : ℕ → ℕ → Bool
has_bit m b = m / 2 ^ b % 2 == 1

-- The chain that the checks share, by the bit of the permission among three: 2 for reading, 1 for
-- writing, 0 for searching and executing. S_IRUSR is bit 8, S_IRGRP bit 5 and S_IROTH bit 2.
unfoldable pub allowed : CliConfig → ℕ → ℕ → ℕ → ℕ → Bool
allowed cfg b mode uid gid =
    (cfg.uid == 0)
    || (((cfg.uid == uid) && has_bit mode (6 + b))
        || (((cfg.gid == gid) && has_bit mode (3 + b)) || has_bit mode b))

abbrev pub is_read_ok : CliConfig → Stat → Bool
is_read_ok cfg s = allowed cfg 2 s.file_mode s.user_id s.group_id

abbrev pub is_write_ok : CliConfig → Stat → Bool
is_write_ok cfg s = allowed cfg 1 s.file_mode s.user_id s.group_id

abbrev pub is_exec_ok : CliConfig → Stat → Bool
is_exec_ok cfg s = allowed cfg 0 s.file_mode s.user_id s.group_id

-- R_OK is 4, W_OK is 2 and X_OK is 1.
unfoldable pub has_access : CliConfig → ℕ → Stat → Bool
has_access cfg acc_mode s =
    not (has_bit acc_mode 2 && not (is_read_ok cfg s))
    && (not (has_bit acc_mode 1 && not (is_write_ok cfg s))
        && not (has_bit acc_mode 0 && not (is_exec_ok cfg s)))
