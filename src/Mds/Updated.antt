-- ===== src/Mds/Updated.antt =====
-- What Fstat replies after Utime or Trunc on the same server.
use deltafs.Prelude.{ℕ, ◌≡◌, refl, ◌∙◌, ap, arith, Bool, false, Bytes, [], ◌∷◌}
use deltafs.Mds.Types.{Ext, Result, ok, err, Error, corruption, DirId, Stat, put_node}
use deltafs.Mds.Laws.{IsStore}
use deltafs.Mds.Db.{Db, Session, bind, get_node, set_node, commit}
use deltafs.Mds.Server.{Config, Srv, Dir, Answers, Reply, done}
use deltafs.Mds.Dirs.{check_args, check_found}
use deltafs.Mds.Handler.{Options, handle}
use deltafs.Mds.Enter.{IsEntered, enter-IsEntered}
use deltafs.Mds.Frame.{change_dir-SameRest, handle-Worked}
use deltafs.Mds.Quiet.{
  fstat_quiet, written, Closes-IsEntered, written-IsEntered, unlock_dir-Closes, Left,
}
use deltafs.Mds.Read.{fstat}
use deltafs.Mds.Write.{begin_write, writing, start_tx, lock_dir, unlock_dir}
use deltafs.Mds.Update.{
  UtimeOptions, TruncOptions, utime, trunc, utime_io, trunc_io, store_stat, truncated, end_update,
  updated,
}
use deltafs.Mds.Stored.{node_key_eq_refl}

module _ (x : Ext) where
  check_args_other :
      (cfg : Config) (m n : Error) (b : Bool) (hash name : Bytes)
      → check_args x cfg m b hash name ≡ ok tt
      → check_args x cfg n b hash name ≡ ok tt
  unfolding check_args
  check_args_other cfg m n b hash name h = ground arith

  check_found_trusted :
      (cfg : Config) (hash name : Bytes) (stat : Stat)
      → cfg.paranoid_checks ≡ false
      → check_found x cfg hash (ok (stat, name)) ≡ ok (stat, name)
  unfolding check_found
  check_found_trusted cfg hash name stat h = ground arith

  store_stat-writes :
      (o : Options) (stat made : Stat) (name : Bytes) (u : Srv x) (v : Session x)
      → store_stat x o stat name (writing x u) ≡ (ok made, v)
      → (x.write u.store (put_node o.dir_id o.name_hash stat name ∷ []) ≡ (ok tt, v.store))
        × (made ≡ stat)
  unfolding store_stat set_node commit
  store_stat-writes o stat made name u v h = ground arith

  -- The entry in the store has the stat.
  abbrev Reads : Options → Stat → x.Store → Type 0
  Reads o made st = (name : Bytes) × (x.read_node st o.dir_id o.name_hash ≡ ok (made, name))

  store_stat-Reads :
      (law : IsStore x) (o : Options) (stat made : Stat) (name : Bytes) (u : Srv x) (v : Session x)
      → store_stat x o stat name (writing x u) ≡ (ok made, v)
      → Reads o made v.store
  store_stat-Reads law o stat made name u v h =
      let e = store_stat-writes o stat made name u v h in
      (
        name,
        law.node_written u.store v.store _ o.dir_id o.name_hash e.0 ∙ rw (node_key_eq_refl x, e.1),
      )

  abbrev Updates : Options → Db x Stat → Type 0
  Updates o io =
      (made : Stat) (u : Srv x) (v : Session x)
      → io (writing x u) ≡ (ok made, v)
      → Reads o made v.store

  changed-Reads :
      (law : IsStore x) (o : Options) (f : Stat → Stat) (made : Stat) (u : Srv x) (v : Session x)
      (r : Result (Stat × Bytes))
      → bind (r, writing x u) (λ (stat, name). store_stat x o (f stat) name) ≡ (ok made, v)
      → Reads o made v.store
  changed-Reads law o f made u v (ok (stat, name)) h =
      store_stat-Reads law o (f stat) made name u v h
  changed-Reads law o f made u v (err e) h = absurd (cc)

  utime_io-Updates :
      (law : IsStore x) (o : UtimeOptions) (now : ℕ) → Updates o.base (utime_io x o now)
  unfolding utime_io get_node
  utime_io-Updates law o now made u v h =
      changed-Reads law o.base (λ stat. record stat { modify_time = o.mtime; change_time = now })
        made u v _ h

  end_update-Left :
      (cfg : Config) (id : DirId) (hash : Bytes) (w : Srv x) (d : Dir x)
      → IsEntered cfg id hash d w
      → Left x cfg id hash w.store (end_update x id w)
  unfolding end_update
  end_update-Left cfg id hash w d h = record {
    dir = unlock_dir x d;
    inside = Closes-IsEntered x cfg id hash (unlock_dir x) w d (unlock_dir-Closes x) h;
    quiet = refl;
    store = (change_dir-SameRest (unlock_dir x) id w).store;
  }

  updated-visible :
      (cfg : Config) (b : Answers) (o : Options) (made : Stat) (s t : Srv x) (d : Dir x)
      (p : Result Stat × Session x)
      → cfg.paranoid_checks ≡ false
      → (p.0 ≡ ok made → Reads o made p.1.store)
      → IsEntered cfg o.dir_id o.name_hash d s
      → check_args x cfg corruption false o.name_hash o.name ≡ ok tt
      → ◌≡◌ {A = Reply Stat × Srv x}
          (done p.0, end_update x o.dir_id (written x o.dir_id p.1.store s))
          (done (ok made), t)
      → fstat x cfg b o t ≡ (done (ok made), t)
  updated-visible cfg b o made s t d (r, v) trust reads h hc f =
      let same : r ≡ ok made = ground arith in
      let w = written x o.dir_id v.store s in
      let leaves : end_update x o.dir_id w ≡ t = ap (λ p. p.1) f in
      let left : Left x cfg o.dir_id o.name_hash v.store t = rw (← leaves) (
        end_update-Left cfg o.dir_id o.name_hash w (lock_dir x (start_tx x s) d)
          (written-IsEntered x cfg o.dir_id o.name_hash s d v.store h)) in
      let found = reads same in
      fstat_quiet x cfg b o t left.dir (check_args_other cfg corruption _ false _ _ hc) left.inside
        left.quiet
      ∙ rw (left.store, found.1, check_found_trusted cfg o.name_hash found.0 made trust)

  handled-visible :
      (cfg : Config) (a b : Answers) (o : Options) (made : Stat) (io : Db x Stat) (s t : Srv x)
      → cfg.paranoid_checks ≡ false
      → Updates o io
      → handle x cfg a corruption false o (updated x io o.dir_id) s ≡ (done (ok made), t)
      → fstat x cfg b o t ≡ (done (ok made), t)
  handled-visible cfg a b o made io s t trust updates h =
      let w = handle-Worked cfg a corruption false o (updated x io o.dir_id) s t made h in
      let u = begin_write x o.dir_id w.srv in
      let p = io (writing x u) in
      updated-visible cfg b o made w.srv t w.dir p trust
        (λ e. updates made u p.1 (ap (λ r. (r, p.1)) e))
        (enter-IsEntered cfg a o.dir_id o.name_hash s w.srv w.dir w.inside) w.checked w.result

  -- The stat that Utime replies with is the one that Fstat gives as the next call on the same server.
  -- The server runs without paranoid checks, which Utime does not make on the stored name.
  pub fstat-utime :
      (law : IsStore x) (cfg : Config) (a b : Answers) (o : UtimeOptions) (made : Stat)
      (s t : Srv x)
      → cfg.paranoid_checks ≡ false
      → utime x cfg a o s ≡ (done (ok made), t)
      → fstat x cfg b o.base t ≡ (done (ok made), t)
  unfolding utime
  fstat-utime law cfg a b o made s t trust h =
      handled-visible cfg a b o.base made (utime_io x o a.start) s t trust
        (utime_io-Updates law o a.start) h

  truncated-Reads :
      (law : IsStore x) (o : TruncOptions) (now : ℕ) (made stat : Stat) (name : Bytes) (u : Srv x)
      (v : Session x) (r : Result Stat)
      → bind (r, writing x u) (λ new. store_stat x o.base new name) ≡ (ok made, v)
      → Reads o.base made v.store
  truncated-Reads law o now made stat name u v (ok new) h =
      store_stat-Reads law o.base new made name u v h
  truncated-Reads law o now made stat name u v (err e) h = absurd (cc)

  trunc_io-Updates :
      (law : IsStore x) (o : TruncOptions) (now : ℕ) → Updates o.base (trunc_io x o now)
  unfolding trunc_io get_node
  trunc_io-Updates law o now made u v h = found (get_node x o.dir_id o.name_hash (writing x u)).0 h
    where
      found :
          (r : Result (Stat × Bytes))
          → bind
              (r, writing x u)
              (λ (stat, name) s.
                bind (truncated x o now stat, s) (λ new. store_stat x o.base new name))
            ≡ (ok made, v)
          → Reads o.base made v.store
      found (ok (stat, name)) h =
          truncated-Reads law o now made stat name u v (truncated x o now stat) h
      found (err e) h = absurd (cc)

  -- The stat that Trunc replies with is the one that Fstat gives as the next call on the same server.
  -- The server runs without paranoid checks, which Trunc does not make on the stored name.
  pub fstat-trunc :
      (law : IsStore x) (cfg : Config) (a b : Answers) (o : TruncOptions) (made : Stat)
      (s t : Srv x)
      → cfg.paranoid_checks ≡ false
      → trunc x cfg a o s ≡ (done (ok made), t)
      → fstat x cfg b o.base t ≡ (done (ok made), t)
  unfolding trunc
  fstat-trunc law cfg a b o made s t trust h =
      handled-visible cfg a b o.base made (trunc_io x o a.start) s t trust
        (trunc_io-Updates law o a.start) h
