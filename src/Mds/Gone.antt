-- ===== src/Mds/Gone.antt =====
-- What Fstat replies after Unlink on the same server.
use deltafs.Prelude.{
  ℕ, ◌≡◌, refl, ◌∙◌, ap, arith, Bool, false, true, Bytes, [], ◌∷◌, Bool-cases, inl, inr,
}
use deltafs.Mds.Types.{
  Ext, Result, ok, err, invalid_argument, not_found, DirId, Stat, is_reg, is_excl, del_node,
  put_raw, dir_meta,
}
use deltafs.Mds.Laws.{IsStore}
use deltafs.Mds.Db.{Session, get_node, del_node_of, set_info, commit, encode_info}
use deltafs.Mds.Server.{Config, Srv, Dir, Answers, Reply, done}
use deltafs.Mds.Dirs.{check_args, check_found}
use deltafs.Mds.Handler.{Options, dec32}
use deltafs.Mds.Enter.{IsEntered, enter-IsEntered}
use deltafs.Mds.Frame.{change_dir-SameRest, handle-Worked}
use deltafs.Mds.Quiet.{
  fstat_quiet, Closes, written, Closes-IsEntered, written-IsEntered, unlock_dir-Closes, Left,
}
use deltafs.Mds.Read.{fstat}
use deltafs.Mds.Write.{begin_write, writing, start_tx, lock_dir, unlock_dir, entry_info}
use deltafs.Mds.Update.{
  UnlinkOptions, unlink, unlink_io, unlink_found, remove_entry, end_unlink, one_less, unlinked,
}
use deltafs.Mds.Stored.{node_key_eq_refl}
use deltafs.Mds.Visible.{drop_flag-Dropped}

module _ (x : Ext) where
  remove_entry-writes :
      (o : Options) (stat made : Stat) (b : Bool) (now : ℕ) (d : Dir x) (u : Srv x) (v : Session x)
      → remove_entry x o stat now d (writing x u) ≡ (ok (made, b), v)
      → x.write u.store (
          del_node o.dir_id o.name_hash
          ∷ put_raw (dir_meta o.dir_id) (encode_info x (entry_info x now (dec32 d.size)))
          ∷ [])
        ≡ (ok tt, v.store)
  unfolding remove_entry del_node_of set_info commit
  remove_entry-writes o stat made b now d u v h = ground arith

  -- The name is not in the store.
  Gone : Config → Options → x.Store → Type 0
  Gone cfg o st =
      check_found x cfg o.name_hash (x.read_node st o.dir_id o.name_hash) ≡ err not_found

  remove_entry-Gone :
      (law : IsStore x) (cfg : Config) (o : Options) (stat made : Stat) (b : Bool) (now : ℕ)
      (d : Dir x) (u : Srv x) (v : Session x)
      → remove_entry x o stat now d (writing x u) ≡ (ok (made, b), v)
      → Gone cfg o v.store
  unfolding Gone check_found
  remove_entry-Gone law cfg o stat made b now d u v h =
      let e = remove_entry-writes o stat made b now d u v h in
      let read : x.read_node v.store o.dir_id o.name_hash ≡ err not_found =
        law.node_written u.store v.store _ o.dir_id o.name_hash e ∙ rw (node_key_eq_refl x) in
      rw read

  unlink_found-Gone :
      (law : IsStore x) (cfg : Config) (o : UnlinkOptions) (made : Stat) (b : Bool) (now : ℕ)
      (d : Dir x) (u : Srv x) (v : Session x) (r : Result (Stat × Bytes))
      → check_found x cfg o.name_hash (x.read_node u.store o.dir_id o.name_hash) ≡ r
      → unlink_found x o now d r (writing x u) ≡ (ok (made, b), v)
      → Gone cfg o.base v.store
  unfolding Gone
  unlink_found-Gone law cfg o made b now d u v (ok (stat, name)) e h =
      elim (Bool-cases (is_reg stat.file_mode)) [
        | inl y ↦ remove_entry-Gone law cfg o.base stat made b now d u v (rw y at h)
        | inr n ↦ absurd (ground arith)
      ]
  unlink_found-Gone law cfg o made b now d u v (err not_found) e h =
      elim (Bool-cases (is_excl o.flags)) [
        | inl y ↦ absurd (ground arith)
        | inr n ↦ let same : writing x u ≡ v = ground arith in rw (← same) e
      ]
  unlink_found-Gone law cfg o made b now d u v (err _) e h = absurd (cc)

  one_less-Closes : (now : ℕ) → Closes x (one_less x now)
  one_less-Closes now = record { index = λ d. refl; status = λ d. refl }

  end_unlink-Left :
      (cfg : Config) (id : DirId) (hash : Bytes) (now : ℕ) (made : Stat) (b : Bool) (w : Srv x)
      (d : Dir x)
      → IsEntered cfg id hash d w
      → Left x cfg id hash w.store (end_unlink x id now (ok (made, b)) w)
  unfolding end_unlink
  end_unlink-Left cfg id hash now made true w d h = record {
    dir = one_less x now d;
    inside = Closes-IsEntered x cfg id hash (one_less x now) w d (one_less-Closes now) h;
    quiet = refl;
    store = (change_dir-SameRest (one_less x now) id w).store;
  }
  end_unlink-Left cfg id hash now made false w d h = record {
    dir = unlock_dir x d;
    inside = Closes-IsEntered x cfg id hash (unlock_dir x) w d (unlock_dir-Closes x) h;
    quiet = refl;
    store = (change_dir-SameRest (unlock_dir x) id w).store;
  }

  unlinked-Gone :
      (cfg : Config) (a b : Answers) (o : UnlinkOptions) (made : Stat) (flag : Bool) (s t : Srv x)
      (d : Dir x) (p : Result (Stat × Bool) × Session x)
      → (p.0 ≡ ok (made, flag) → Gone cfg o.base p.1.store)
      → IsEntered cfg o.dir_id o.name_hash d s
      → check_args x cfg invalid_argument false o.name_hash o.name ≡ ok tt
      → ◌≡◌ {A = Reply (Stat × Bool) × Srv x}
          (done p.0, end_unlink x o.dir_id a.start p.0 (written x o.dir_id p.1.store s))
          (done (ok (made, flag)), t)
      → fstat x cfg b o.base t ≡ (done (err not_found), t)
  unfolding Gone
  unlinked-Gone cfg a b o made flag s t d (r, v) gone h hc f =
      let same : r ≡ ok (made, flag) = ground arith in
      let w = written x o.dir_id v.store s in
      let leaves : end_unlink x o.dir_id a.start (ok (made, flag)) w ≡ t =
        rw (← same) (ap (λ p. p.1) f) in
      let left : Left x cfg o.dir_id o.name_hash v.store t = rw (← leaves) (
        end_unlink-Left cfg o.dir_id o.name_hash a.start made flag w (lock_dir x (start_tx x s) d)
          (written-IsEntered x cfg o.dir_id o.name_hash s d v.store h)) in
      fstat_quiet x cfg b o.base t left.dir hc left.inside left.quiet ∙ rw (left.store, gone same)

  -- Once Unlink has replied well, because it removed the file or because there was none, Fstat as the
  -- next call on the same server replies that the name is not there.
  pub fstat-unlink :
      (law : IsStore x) (cfg : Config) (a b : Answers) (o : UnlinkOptions) (made : Stat)
      (s t : Srv x)
      → unlink x cfg a o s ≡ (done (ok made), t)
      → fstat x cfg b o.base t ≡ (done (err not_found), t)
  unfolding unlink unlink_io get_node
  fstat-unlink law cfg a b o made s t h =
      let r = drop_flag-Dropped x _ made t h in
      let w =
        handle-Worked cfg a invalid_argument false o.base (unlinked x cfg a o) s t (made, r.0)
          r.1 in
      let u = begin_write x o.dir_id w.srv in
      let p = unlink_io x cfg o a.start w.dir (writing x u) in
      unlinked-Gone cfg a b o made r.0 w.srv t w.dir p
        (λ e.
          unlink_found-Gone law cfg o made r.0 a.start w.dir u p.1 _ refl (ap (λ r. (r, p.1)) e))
        (enter-IsEntered cfg a o.dir_id o.name_hash s w.srv w.dir w.inside) w.checked w.result
