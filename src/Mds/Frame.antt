-- ===== src/Mds/Frame.antt =====
-- What a change of one directory leaves alone, and where it is found again.
use deltafs.Prelude.{◌≡◌, refl, ◌∙◌, some, arith, Bool}
use deltafs.Mds.Types.{Ext, Result, ok, err, Error, DirId}
use deltafs.Mds.Server.{Config, Srv, Dir, Answers, done, find_dir, put_dir, next_ino}
use deltafs.Mds.Dirs.{enter, entered, Entry, refused, moved, check_args}
use deltafs.Mds.Handler.{Options, Body, handle, checked, in_dir, change_dir}
use deltafs.Mds.Enter.{find_dir-put_dir}
use deltafs.Mds.Write.{begin_write, lock_write, publish_tx, locked_dir, with_tx, lock_dir, start_tx}

module _ {x : Ext} where
  -- The store and the fence of a server.
  pub record SameRest (s t : Srv x) : Type 0 where
    pub store : t.store ≡ s.store
    pub status : t.status ≡ s.status
    pub leases : t.leases ≡ s.leases

  pub change_dir-SameRest :
      (f : Dir x → Dir x) (id : DirId) (s : Srv x) → SameRest s (change_dir x f id s)
  unfolding put_dir
  change_dir-SameRest f id s = ground arith

  pub find_dir-change_dir :
      (f : Dir x → Dir x) (id : DirId) (s : Srv x) {d : Dir x}
      → find_dir id s ≡ some d
      → find_dir id (change_dir x f id s) ≡ some (f d)
  find_dir-change_dir f id s {d} h = rw h (find_dir-put_dir id {d = d} (f d) s h)

  pub find_dir-store :
      (id : DirId) (st : x.Store) (s : Srv x)
      → find_dir id (record s { store = st }) ≡ find_dir id s
  unfolding find_dir
  find_dir-store id st s = refl

  pub find_dir-next_ino :
      (cfg : Config) (id : DirId) (s : Srv x) → find_dir id (next_ino cfg s).1 ≡ find_dir id s
  unfolding find_dir next_ino
  find_dir-next_ino cfg id s = refl

  pub find_dir-begin_write :
      (id : DirId) (s : Srv x) {d : Dir x}
      → find_dir id s ≡ some d
      → find_dir id (begin_write x id s) ≡ some (lock_dir x (start_tx x s) d)
  unfolding begin_write lock_write publish_tx
  find_dir-begin_write id s {d} h =
      let u = change_dir x (locked_dir x) id s in
      find_dir-change_dir (with_tx x (start_tx x u)) id u
        (find_dir-change_dir (locked_dir x) id s {d = d} h)
      ∙ rw (change_dir-SameRest (locked_dir x) id s).store

  pub begin_write-SameRest : (id : DirId) (s : Srv x) → SameRest s (begin_write x id s)
  unfolding begin_write lock_write publish_tx
  begin_write-SameRest id s =
      let u = change_dir x (locked_dir x) id s in
      let h = change_dir-SameRest (locked_dir x) id s in
      let k = change_dir-SameRest (with_tx x (start_tx x u)) id u in
      record {
        store = k.store ∙ h.store;
        status = k.status ∙ h.status;
        leases = k.leases ∙ h.leases;
      }

  -- A handler that replies with a result has passed its checks and done its work.
  pub record Worked {A : Type 0} (cfg : Config) (a : Answers) (mismatch : Error) (needs_name : Bool)
      (o : Options) (body : Body x A) (s t : Srv x) (r : A) : Type 0 where
    pub dir : Dir x
    pub srv : Srv x
    pub checked : check_args x cfg mismatch needs_name o.name_hash o.name ≡ ok tt
    pub inside : enter x cfg a o.dir_id o.name_hash s ≡ entered dir srv
    pub result : body dir srv ≡ (done (ok r), t)

  in_dir-Worked :
      {A : Type 0} (cfg : Config) (a : Answers) (mismatch : Error) (needs_name : Bool) (o : Options)
      (body : Body x A) (s t : Srv x) (r : A) (e : Entry x)
      → check_args x cfg mismatch needs_name o.name_hash o.name ≡ ok tt
      → enter x cfg a o.dir_id o.name_hash s ≡ e
      → in_dir x e body ≡ (done (ok r), t)
      → Worked cfg a mismatch needs_name o body s t r
  in_dir-Worked cfg a m n o body s t r (refused c u) hc he h = absurd (cc)
  in_dir-Worked cfg a m n o body s t r (moved idx u) hc he h = absurd (cc)
  in_dir-Worked cfg a m n o body s t r (entered d u) hc he h = record {
    dir = d;
    srv = u;
    checked = hc;
    inside = he;
    result = h;
  }

  checked-Worked :
      {A : Type 0} (cfg : Config) (a : Answers) (mismatch : Error) (needs_name : Bool) (o : Options)
      (body : Body x A) (s t : Srv x) (r : A) (c : Result (Unit {0}))
      → check_args x cfg mismatch needs_name o.name_hash o.name ≡ c
      → checked x c (in_dir x (enter x cfg a o.dir_id o.name_hash s) body) s ≡ (done (ok r), t)
      → Worked cfg a mismatch needs_name o body s t r
  checked-Worked cfg a m n o body s t r (ok tt) hc h =
      in_dir-Worked cfg a m n o body s t r _ hc refl h
  checked-Worked cfg a m n o body s t r (err e) hc h = absurd (cc)

  pub handle-Worked :
      {A : Type 0} (cfg : Config) (a : Answers) (mismatch : Error) (needs_name : Bool) (o : Options)
      (body : Body x A) (s t : Srv x) (r : A)
      → handle x cfg a mismatch needs_name o body s ≡ (done (ok r), t)
      → Worked cfg a mismatch needs_name o body s t r
  handle-Worked cfg a m n o body s t r h = checked-Worked cfg a m n o body s t r _ refl h
