-- ===== src/Mds/Quiet.antt =====
-- Fstat in a directory where nothing is being written, and how a write leaves its directory.
use deltafs.Prelude.{ℕ, ◌==◌, Bool-cases, inl, inr, ◌≡◌, refl, ◌∙◌, none, arith, false, true, Bytes}
use deltafs.Mds.Types.{Ext, ok, Error, invalid_argument, DirId, Stat}
use deltafs.Mds.Db.{get_node}
use deltafs.Mds.Server.{Config, Srv, Dir, Answers, done, find_dir, next_ino, try_reuse_ino}
use deltafs.Mds.Dirs.{check_args, check_found}
use deltafs.Mds.Handler.{Options, change_dir}
use deltafs.Mds.Enter.{IsEntered, enter_again}
use deltafs.Mds.Frame.{
  change_dir-SameRest, find_dir-change_dir, find_dir-store, find_dir-begin_write, find_dir-next_ino,
  begin_write-SameRest,
}
use deltafs.Mds.Read.{fstat, read_entry, stat_of}
use deltafs.Mds.Write.{begin_write, start_tx, lock_dir, unlock_dir}

module _ (x : Ext) where
  -- A check that demands a name is the stricter one, and then the name has the hash.
  pub check_args_weaken :
      (cfg : Config) (m n : Error) (hash name : Bytes)
      → check_args x cfg m true hash name ≡ ok tt
      → check_args x cfg n false hash name ≡ ok tt
  unfolding check_args
  check_args_weaken cfg m n hash name h = ground arith

  pub check_found_checked :
      (cfg : Config) (m : Error) (hash name : Bytes) (stat : Stat)
      → check_args x cfg m true hash name ≡ ok tt
      → check_found x cfg hash (ok (stat, name)) ≡ ok (stat, name)
  unfolding check_args check_found
  check_found_checked cfg m hash name stat h = ground arith

  pub fstat_quiet :
      (cfg : Config) (a : Answers) (o : Options) (s : Srv x) (d : Dir x)
      → check_args x cfg invalid_argument false o.name_hash o.name ≡ ok tt
      → IsEntered cfg o.dir_id o.name_hash d s
      → d.tx ≡ none
      → fstat x cfg a o s ≡ (
        done (stat_of x (check_found x cfg o.name_hash (x.read_node s.store o.dir_id o.name_hash))),
        s,
      )
  unfolding fstat read_entry get_node check_found
  fstat_quiet cfg a o s d hc he quiet =
      rw (hc, enter_again cfg a o.dir_id o.name_hash s d he, quiet, fstat)

  -- A change that ends a write: the directory serves the same names and is not fenced.
  pub record Closes (f : Dir x → Dir x) : Type 0 where
    pub index : (d : Dir x) → (f d).index ≡ d.index
    pub status : (d : Dir x) → (f d).status ≡ d.status

  abbrev pub written : DirId → x.Store → Srv x → Srv x
  written id st s = record (begin_write x id s) { store = st }

  pub Closes-IsEntered :
      (cfg : Config) (id : DirId) (hash : Bytes) (f : Dir x → Dir x) (s : Srv x) (d : Dir x)
      → Closes f
      → IsEntered cfg id hash d s
      → IsEntered cfg id hash (f d) (change_dir x f id s)
  Closes-IsEntered cfg id hash f s d c h = record {
    found = find_dir-change_dir f id s {d = d} h.found;
    alive = (change_dir-SameRest f id s).status ∙ h.alive;
    usable = c.status d ∙ h.usable;
    mine = rw (c.index d) h.mine;
  }

  pub written-IsEntered :
      (cfg : Config) (id : DirId) (hash : Bytes) (s : Srv x) (d : Dir x) (st : x.Store)
      → IsEntered cfg id hash d s
      → IsEntered cfg id hash (lock_dir x (start_tx x s) d) (written id st s)
  written-IsEntered cfg id hash s d st h = record {
    found = find_dir-store id st (begin_write x id s) ∙ find_dir-begin_write id s {d = d} h.found;
    alive = (begin_write-SameRest id s).status ∙ h.alive;
    usable = h.usable;
    mine = h.mine;
  }

  pub next_ino-IsEntered :
      (cfg : Config) (id : DirId) (hash : Bytes) (s : Srv x) (d : Dir x)
      → IsEntered cfg id hash d s
      → (next_ino cfg s).1.status ≡ none
      → IsEntered cfg id hash d (next_ino cfg s).1
  next_ino-IsEntered cfg id hash s d h alive = record {
    found = find_dir-next_ino cfg id s ∙ h.found;
    alive = alive;
    usable = h.usable;
    mine = h.mine;
  }

  pub try_reuse_ino-IsEntered :
      (cfg : Config) (id : DirId) (hash : Bytes) (ino : ℕ) (s : Srv x) (d : Dir x)
      → IsEntered cfg id hash d s
      → IsEntered cfg id hash d (try_reuse_ino ino s)
        × ((try_reuse_ino ino s).store ≡ s.store)
        × ((try_reuse_ino ino s).status ≡ s.status)
  unfolding try_reuse_ino find_dir
  try_reuse_ino-IsEntered cfg id hash ino s d h = elim (Bool-cases (ino == s.ino)) [
    | inl e ↦
        rw e (
          record { found = h.found; alive = h.alive; usable = h.usable; mine = h.mine },
          refl,
          refl,
        )
    | inr e ↦ rw e (h, refl, refl)
  ]

  pub unlock_dir-Closes : Closes (unlock_dir x)
  unlock_dir-Closes = record { index = λ d. refl; status = λ d. refl }

  -- A write that ended well leaves the directory free, over the store it wrote.
  pub record Left (cfg : Config) (id : DirId) (hash : Bytes) (st : x.Store) (t : Srv x)
      : Type 0 where
    pub dir : Dir x
    pub inside : IsEntered cfg id hash dir t
    pub quiet : dir.tx ≡ none
    pub store : t.store ≡ st
