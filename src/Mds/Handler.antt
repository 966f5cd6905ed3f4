-- ===== src/Mds/Handler.antt =====
-- What the handlers of `MDS::SRV` share: the options, the reply, and the sequence of checks that
-- comes before the work on the parent directory.
use deltafs.Prelude.{ℕ, ◌+◌, ◌-◌, ◌%◌, Bool, Bytes, Option, none, some}
use deltafs.Mds.Types.{Ext, Result, ok, err, Error, DirId, u64_mod, u32_mod}
use deltafs.Mds.Server.{Config, Srv, Dir, Answers, Reply, done, redirect, find_dir, put_dir}
use deltafs.Mds.Dirs.{enter, Entry, refused, moved, entered, check_args}

-- BaseOptions.
pub record Options : Type 0 where
  pub dir_id : DirId
  pub name_hash : Bytes
  pub name : Bytes

-- uint64_t and uint32_t arithmetic.
abbrev pub sub64 : ℕ → ℕ → ℕ
sub64 a b = (a + u64_mod - b) % u64_mod

abbrev pub add64 : ℕ → ℕ → ℕ
add64 a b = (a + b) % u64_mod

abbrev pub inc32 : ℕ → ℕ
inc32 a = (a + 1) % u32_mod

abbrev pub dec32 : ℕ → ℕ
dec32 a = (a + u32_mod - 1) % u32_mod

module _ (x : Ext) where
  -- The work of a handler in its parent directory.
  abbrev pub Body : Type 0 → Type 0
  Body A = Dir x → Srv x → Reply A × Srv x

  abbrev pub in_dir : {A : Type 0} → Entry x → Body A → Reply A × Srv x
  in_dir (refused e s) body = (done (err e), s)
  in_dir (moved idx s) body = (redirect idx, s)
  in_dir (entered d s) body = body d s

  abbrev pub checked : {A : Type 0} → Result (Unit {0}) → Reply A × Srv x → Srv x → Reply A × Srv x
  checked (err e) work s = (done (err e), s)
  checked (ok _) work s = work

  abbrev pub handle :
      {A : Type 0} → Config → Answers → Error → Bool → Options → Body A → Srv x → Reply A × Srv x
  handle cfg a mismatch needs_name o body s =
      checked (check_args x cfg mismatch needs_name o.name_hash o.name)
        (in_dir (enter x cfg a o.dir_id o.name_hash s) body) s

  -- A change of the directory that other threads may have changed meanwhile.
  abbrev pub change : (Dir x → Dir x) → DirId → Option (Dir x) → Srv x → Srv x
  change f id none s = s
  change f id (some d) s = put_dir id (f d) s

  abbrev pub change_dir : (Dir x → Dir x) → DirId → Srv x → Srv x
  change_dir f id s = change f id (find_dir id s) s
