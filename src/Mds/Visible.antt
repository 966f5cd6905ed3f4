-- ===== src/Mds/Visible.antt =====
-- What Fstat replies after Fcreat or Mkdir on the same server.
use deltafs.Prelude.{ℕ, ◌≡◌, refl, ◌∙◌, sym, ap, none, arith, Bool, false, true, Bytes}
use deltafs.Mds.Types.{Ext, Result, ok, err, invalid_argument, DirId, Stat}
use deltafs.Mds.Laws.{IsStore}
use deltafs.Mds.Db.{Db, Session, get_node}
use deltafs.Mds.Server.{Config, Srv, Dir, Answers, Reply, done, redirect, next_ino, try_reuse_ino}
use deltafs.Mds.Dirs.{check_args}
use deltafs.Mds.Handler.{Options, handle}
use deltafs.Mds.Enter.{IsEntered, enter-IsEntered}
use deltafs.Mds.Frame.{change_dir-SameRest, begin_write-SameRest, handle-Worked}
use deltafs.Mds.Quiet.{
  Left, unlock_dir-Closes, check_args_weaken, fstat_quiet, Closes, written, Closes-IsEntered,
  written-IsEntered, next_ino-IsEntered, try_reuse_ino-IsEntered,
}
use deltafs.Mds.Stored.{Stored, create_at-Stored}
use deltafs.Mds.Read.{fstat}
use deltafs.Mds.Write.{
  CreateOptions, fcreat, fcreat_io, mkdir, mkdir_io, existing_dir, existing_file, begin_write,
  writing, start_tx, lock_dir, unlock_dir, end_create, one_more, created, publish_created,
  drop_flag,
}

module _ (x : Ext) where
  one_more-Closes : (now : ℕ) → Closes x (one_more x now)
  one_more-Closes now = record { index = λ d. refl; status = λ d. refl }

  end_create-status :
      (id : DirId) (now ino : ℕ) (r : Result (Stat × Bool)) (w : Srv x)
      → (end_create x id now ino r w).status ≡ w.status
  unfolding end_create try_reuse_ino
  end_create-status id now ino (ok (made, true)) w =
      (change_dir-SameRest (one_more x now) id w).status
  end_create-status id now ino (ok (made, false)) w =
      (change_dir-SameRest (unlock_dir x) id (try_reuse_ino ino w)).status ∙ ground arith
  end_create-status id now ino (err e) w =
      (change_dir-SameRest (unlock_dir x) id (try_reuse_ino ino w)).status ∙ ground arith

  end_create-Left :
      (cfg : Config) (id : DirId) (hash : Bytes) (now ino : ℕ) (made : Stat) (b : Bool) (w : Srv x)
      (d : Dir x)
      → IsEntered cfg id hash d w
      → Left x cfg id hash w.store (end_create x id now ino (ok (made, b)) w)
  unfolding end_create
  end_create-Left cfg id hash now ino made true w d h = record {
    dir = one_more x now d;
    inside = Closes-IsEntered x cfg id hash (one_more x now) w d (one_more-Closes now) h;
    quiet = refl;
    store = (change_dir-SameRest (one_more x now) id w).store;
  }
  end_create-Left cfg id hash now ino made false w d h =
      let r = try_reuse_ino-IsEntered x cfg id hash ino w d h in
      record {
        dir = unlock_dir x d;
        inside = Closes-IsEntered x cfg id hash (unlock_dir x) _ d (unlock_dir-Closes x) r.0;
        quiet = refl;
        store = (change_dir-SameRest (unlock_dir x) id (try_reuse_ino ino w)).store ∙ r.1;
      }

  Left-fstat :
      (cfg : Config) (a : Answers) (o : Options) (made : Stat) (st : x.Store) (t : Srv x)
      → check_args x cfg invalid_argument true o.name_hash o.name ≡ ok tt
      → Stored x cfg o made st
      → Left x cfg o.dir_id o.name_hash st t
      → fstat x cfg a o t ≡ (done (ok made), t)
  unfolding Stored
  Left-fstat cfg a o made st t hc stored left =
      fstat_quiet x cfg a o t left.dir (check_args_weaken x cfg _ _ _ _ hc) left.inside left.quiet
      ∙ rw (left.store, stored.1)

  -- The part of a creation on the store.
  abbrev Io : Type 0
  Io = ℕ → Dir x → Db x (Stat × Bool)

  abbrev Stores : Config → Options → Io → Type 0
  Stores cfg o io =
      (made : Stat) (b : Bool) (ino : ℕ) (d : Dir x) (u : Srv x) (v : Session x)
      → check_args x cfg invalid_argument true o.name_hash o.name ≡ ok tt
      → io ino d (writing x u) ≡ (ok (made, b), v)
      → Stored x cfg o made v.store

  published-visible :
      (cfg : Config) (a b : Answers) (o : Options) (made : Stat) (flag : Bool) (s t : Srv x)
      (d : Dir x) (p : Result (Stat × Bool) × Session x)
      → (p.0 ≡ ok (made, flag) → Stored x cfg o made p.1.store)
      → IsEntered cfg o.dir_id o.name_hash d s
      → check_args x cfg invalid_argument true o.name_hash o.name ≡ ok tt
      → publish_created x cfg a o.dir_id s p ≡ (done (ok (made, flag)), t)
      → t.status ≡ none
      → fstat x cfg b o t ≡ (done (ok made), t)
  published-visible cfg a b o made flag s t d (err c, v) stored h hc f alive = absurd (cc)
  published-visible cfg a b o made flag s t d (ok (stat, c), v) stored h hc f alive =
      Left-fstat cfg b o made v.store t hc (stored same) (
        rw (← leaves) (
          end_create-Left cfg o.dir_id o.name_hash a.start ino made flag w
            (lock_dir x (start_tx x n) d)
            (written-IsEntered x cfg o.dir_id o.name_hash n d v.store
              (next_ino-IsEntered x cfg o.dir_id o.name_hash s d h free))))
    where
      ino : ℕ
      ino = (next_ino cfg s).0

      n : Srv x
      n = (next_ino cfg s).1

      w : Srv x
      w = written x o.dir_id v.store n

      same : ◌≡◌ {A = Result (Stat × Bool)} (ok (stat, c)) (ok (made, flag))
      same = ground arith

      leaves : end_create x o.dir_id a.start ino (ok (made, flag)) w ≡ t
      leaves = rw (← same) (ap (λ p. p.1) f)

      free : n.status ≡ none
      free =
          sym (begin_write-SameRest o.dir_id n).status
          ∙ sym (end_create-status o.dir_id a.start ino (ok (made, flag)) w)
          ∙ ap (λ u. u.status) leaves
          ∙ alive

  created-visible :
      (cfg : Config) (a b : Answers) (o : Options) (made : Stat) (flag : Bool) (io : Io)
      (s t : Srv x)
      → Stores cfg o io
      → handle x cfg a invalid_argument true o (created x io cfg a o.dir_id) s
        ≡ (done (ok (made, flag)), t)
      → t.status ≡ none
      → fstat x cfg b o t ≡ (done (ok made), t)
  created-visible cfg a b o made flag io s t stores h alive =
      let w =
        handle-Worked cfg a invalid_argument true o (created x io cfg a o.dir_id) s t (made, flag)
          h in
      let n = next_ino cfg w.srv in
      let u = begin_write x o.dir_id n.1 in
      let p = io n.0 w.dir (writing x u) in
      published-visible cfg a b o made flag w.srv t w.dir p
        (λ e. stores made flag n.0 w.dir u p.1 w.checked (ap (λ r. (r, p.1)) e))
        (enter-IsEntered cfg a o.dir_id o.name_hash s w.srv w.dir w.inside) w.checked w.result alive

  fcreat_io-Stores :
      (law : IsStore x) (cfg : Config) (o : CreateOptions) (now : ℕ)
      → Stores cfg o.base (λ ino d. fcreat_io x cfg o now ino d)
  unfolding fcreat_io get_node
  fcreat_io-Stores law cfg o now made b ino d u v hc h =
      create_at-Stored x law cfg (existing_file x o) o.base _ made b now d u v _
        (λ old m c e. ground arith) hc refl h

  mkdir_io-Stores :
      (law : IsStore x) (cfg : Config) (o : CreateOptions) (now : ℕ)
      → Stores cfg o.base (λ ino d. mkdir_io x cfg o now ino d)
  unfolding mkdir_io get_node
  mkdir_io-Stores law cfg o now made b ino d u v hc h =
      create_at-Stored x law cfg (existing_dir x o) o.base _ made b now d u v _
        (λ old m c e. ground arith) hc refl h

  -- A file that Fcreat reports, as created or as there already, is there: Fstat as the next call on
  -- the same server, whatever its clock says, replies with the stat that Fcreat gave. The server must
  -- not have run out of inode numbers.
  pub fstat-fcreat :
      (law : IsStore x) (cfg : Config) (a b : Answers) (o : CreateOptions) (made : Stat)
      (flag : Bool) (s t : Srv x)
      → fcreat x cfg a o s ≡ (done (ok (made, flag)), t)
      → t.status ≡ none
      → fstat x cfg b o.base t ≡ (done (ok made), t)
  unfolding fcreat
  fstat-fcreat law cfg a b o made flag s t h alive =
      created-visible cfg a b o.base made flag (λ ino d. fcreat_io x cfg o a.start ino d) s t
        (fcreat_io-Stores law cfg o a.start) h alive

  abbrev pub Dropped : Reply (Stat × Bool) × Srv x → Stat → Srv x → Type 0
  Dropped p made t = (flag : Bool) × (p ≡ (done (ok (made, flag)), t))

  pub drop_flag-Dropped :
      (p : Reply (Stat × Bool) × Srv x) (made : Stat) (t : Srv x)
      → drop_flag x p ≡ (done (ok made), t)
      → Dropped p made t
  drop_flag-Dropped (done (ok (stat, flag)), u) made t h = (flag, ground arith)
  drop_flag-Dropped (done (err e), u) made t h = absurd (cc)
  drop_flag-Dropped (redirect idx, u) made t h = absurd (cc)

  -- A directory that Mkdir reports, as created or as there already, is there: Fstat as the next call
  -- on the same server, whatever its clock says, replies with the stat that Mkdir gave. The server must
  -- not have run out of inode numbers.
  pub fstat-mkdir :
      (law : IsStore x) (cfg : Config) (a b : Answers) (o : CreateOptions) (made : Stat)
      (s t : Srv x)
      → mkdir x cfg a o s ≡ (done (ok made), t)
      → t.status ≡ none
      → fstat x cfg b o.base t ≡ (done (ok made), t)
  unfolding mkdir
  fstat-mkdir law cfg a b o made s t h alive =
      let r = drop_flag-Dropped _ made t h in
      created-visible cfg a b o.base made r.0 (λ ino d. mkdir_io x cfg o a.start ino d) s t
        (mkdir_io-Stores law cfg o a.start) r.1 alive
