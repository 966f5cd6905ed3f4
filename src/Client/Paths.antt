-- ===== src/Client/Paths.antt =====
-- SanitizePath, ExpandPath, Chroot, Chdir, Umask and the operations on paths of
-- src/libdeltafs/deltafs_client.cc that the MDS client does.
use Prim.Native.Nat.{bit_and}
use deltafs.Prelude.{
  ℕ, zero, suc, ◌-◌, ◌%◌, ◌^◌, Bool, true, false, ◌&&◌, ltb, ◌==◌, List, [], ◌∷◌, ◌++◌, Option,
  none, some, Bytes, bytes_eq, is_empty, length, if◌then◌else◌,
}
use deltafs.Mds.Types.{Result, ok, err, invalid_argument, u32_mod}
use deltafs.Cli.State.{Common, CliConfig, Outside, Do, ◌>>=◌, pure, fail}
use deltafs.Cli.Resolve.{slash}
use deltafs.Cli.Ops
use deltafs.Cli.Parents
use deltafs.Cli.Listing

-- `curroot_` and `curdir_`, where set, and the mask.
pub record Places : Type 0 where
  pub curroot : Option Bytes
  pub curdir : Option Bytes
  pub mask : ℕ

abbrev pub begins_with_slash : Bytes → Bool
begins_with_slash [] = false
begins_with_slash (c ∷ cs) = c == slash

abbrev pub ends_with_slash : Bytes → Bool
ends_with_slash [] = false
ends_with_slash (c ∷ []) = c == slash
ends_with_slash (c ∷ d ∷ cs) = ends_with_slash (d ∷ cs)

-- A string without its last character.
abbrev pub chop : Bytes → Bytes
chop [] = []
chop (c ∷ []) = []
chop (c ∷ d ∷ cs) = c ∷ chop (d ∷ cs)

abbrev pub has_tail_slash : Bytes → Bool
has_tail_slash path = ltb 1 (length path) && ends_with_slash path

-- The loop of SanitizePath, on fuel for the characters.
unfoldable pub trim : ℕ → Bytes → Bytes
trim zero path = path
trim (suc fuel) path = if has_tail_slash path then trim fuel (chop path) else path

abbrev pub trimmed : Bytes → Bytes
trimmed path = trim (length path) path

unfoldable pub sanitize_path : Bytes → Result Bytes
sanitize_path path = if is_empty (trimmed path) then err invalid_argument else ok (trimmed path)

abbrev pub below_root : Option Bytes → Bytes → Bytes
below_root none path = path
below_root (some curroot) path = curroot ++ path

abbrev pub below_dir : Option Bytes → Bytes → Bytes
below_dir none path = slash ∷ path
below_dir (some curdir) path = curdir ++ slash ∷ path

abbrev pub placed : Places → Bytes → Bytes
placed p path =
    if begins_with_slash path then below_root p.curroot path else below_dir p.curdir path

abbrev pub expanded : Places → Result Bytes → Result Bytes
expanded p (err e) = err e
expanded p (ok path) = ok (placed p path)

unfoldable pub expand_path : Places → Bytes → Result Bytes
expand_path p path = expanded p (sanitize_path path)

-- (~mask) & mode.
unfoldable pub mask_mode : Places → ℕ → ℕ
mask_mode p mode = bit_and (u32_mod - 1 - p.mask) mode

-- The old mask, and the new one.
unfoldable pub umask : ℕ → Places → ℕ × Places
umask mode p = (p.mask, record p { mask = mode % 2 ^ 9 })

-- A new root or working directory is not set if it is "/".
abbrev pub unless_root : Bytes → Option Bytes
unless_root path = if bytes_eq path (slash ∷ []) then none else some path

module _ (x : Common) {S : Type 0} (cfg : CliConfig) (out : Outside S) (fuel : ℕ) where
  abbrev pub at_path : {A : Type 0} → Result Bytes → (Bytes → Do x S A) → Do x S A
  at_path (err e) act = fail e
  at_path (ok path) act = act path

  unfoldable pub chroot : Bytes → Places → Do x S Places
  chroot path p = at_path (expand_path p path) λ full.
      Listing.accessdir x cfg out fuel full 1 >>= λ _.
      pure (record p { curroot = unless_root full })

  unfoldable pub chdir : Bytes → Places → Do x S Places
  chdir path p = at_path (expand_path p path) λ full.
      Listing.accessdir x cfg out fuel full 1 >>= λ _. pure (record p { curdir = unless_root full })

  unfoldable pub mkfile : Places → Bytes → ℕ → Do x S (Unit {0})
  mkfile p path mode =
      at_path (expand_path p path)
        λ full. Ops.fcreat x cfg out fuel full (mask_mode p mode) true none >>= λ _. pure tt

  -- Mkdirs and Mkdir; the number is the fuel of the recursion for missing parents.
  unfoldable pub mkdirs : ℕ → Places → Bytes → ℕ → Do x S (Unit {0})
  mkdirs rounds p path mode = at_path (expand_path p path) λ full.
      Parents.mkdir x cfg out fuel rounds full (mask_mode p mode) true false >>= λ _. pure tt

  unfoldable pub mkdir : ℕ → Places → Bytes → ℕ → Do x S (Unit {0})
  mkdir rounds p path mode = at_path (expand_path p path) λ full.
      Parents.mkdir x cfg out fuel rounds full (mask_mode p mode) false true >>= λ _. pure tt

  unfoldable pub chmod : Places → Bytes → ℕ → Do x S (Unit {0})
  chmod p path mode =
      at_path (expand_path p path) λ full. Ops.chmod x cfg out fuel full mode >>= λ _. pure tt

  unfoldable pub chown : Places → Bytes → ℕ → ℕ → Do x S (Unit {0})
  chown p path usr grp =
      at_path (expand_path p path) λ full. Ops.chown x cfg out fuel full usr grp >>= λ _. pure tt

  unfoldable pub access : Places → Bytes → ℕ → Do x S (Unit {0})
  access p path mode = at_path (expand_path p path) λ full. Listing.access x cfg out fuel full mode

  unfoldable pub accessdir : Places → Bytes → ℕ → Do x S (Unit {0})
  accessdir p path mode =
      at_path (expand_path p path) λ full. Listing.accessdir x cfg out fuel full mode

  unfoldable pub listdir : Places → Bytes → Do x S (List Bytes)
  listdir p path = at_path (expand_path p path) λ full. Listing.listdir x cfg out fuel full
