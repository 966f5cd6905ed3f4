-- ===== src/Mds/Reload.antt =====
-- The directory that the server keeps in its cache against the one in the store.
use deltafs.Prelude.{ℕ, ◌<◌, ◌≡◌, ◌∙◌, sym, ap, none, some, arith, Bool, true, Bytes, Option}
use deltafs.Mds.Types.{
  Ext, Result, ok, err, invalid_argument, not_found, DirId, dir_id_eq_refl, Stat, DirInfo, dir_meta,
  u32_mod, u64_mod,
}
use deltafs.Mds.Laws.{IsStore, IsCoding}
use deltafs.Mds.Db.{Session, get_info, encode_info, decode_info}
use deltafs.Mds.Server.{Config, Srv, Dir, Answers, done, find_dir, next_ino}
use deltafs.Mds.Handler.{Options, inc32, change_dir}
use deltafs.Mds.Enter.{enter-IsEntered}
use deltafs.Mds.Frame.{
  change_dir-SameRest, find_dir-change_dir, find_dir-store, find_dir-begin_write, find_dir-next_ino,
  handle-Worked,
}
use deltafs.Mds.Quiet.{written}
use deltafs.Mds.Stored.{add_entry-writes}
use deltafs.Mds.Write.{
  CreateOptions, fcreat, fcreat_io, add_entry, create_at, existing_file, begin_write, writing,
  start_tx, lock_dir, end_create, one_more, entry_info, created, publish_created,
}

module _ (x : Ext) where
  -- The info of a directory is read back as it was written, the modification time being a uint64_t
  -- and the size the pattern of an int.
  pub decode_info-encode_info :
      (c : IsCoding x) (i : DirInfo)
      → i.mtime < u64_mod
      → i.size < u32_mod
      → decode_info x (encode_info x i) ≡ some i
  unfolding decode_info encode_info
  decode_info-encode_info c i m s =
      rw (c.varint64 i.mtime (x.put_varint32 i.size) m, c.varint32 i.size s)

  add_entry-info :
      (law : IsStore x) (c : IsCoding x) (o : Options) (new made : Stat) (b : Bool) (now : ℕ)
      (d : Dir x) (u : Srv x) (v : Session x)
      → now < u64_mod
      → add_entry x o new now d (writing x u) ≡ (ok (made, b), v)
      → (get_info x o.dir_id (record { store = v.store; tx = none })).0
        ≡ ok (entry_info x now (inc32 d.size))
  unfolding get_info
  add_entry-info law c o new made b now d u v h e =
      let w = add_entry-writes x o new made b now d u v e in
      let i = entry_info x now (inc32 d.size) in
      let read : x.read_raw v.store (dir_meta o.dir_id) ≡ ok (encode_info x i) =
        law.raw_written u.store v.store _ (dir_meta o.dir_id) w.0 ∙ rw dir_id_eq_refl in
      rw (read, get_info, decode_info-encode_info c i h (omega arith))

  create_at-adds :
      (existing : Stat → Result (Stat × Bool)) (o : Options) (new made : Stat) (now : ℕ) (d : Dir x)
      (u : Srv x) (v : Session x) (r : Result (Stat × Bytes))
      → ((old : Stat) → existing old ≡ ok (made, true) → ⊥)
      → create_at x existing o new now d r (writing x u) ≡ (ok (made, true), v)
      → add_entry x o new now d (writing x u) ≡ (ok (made, true), v)
  create_at-adds existing o new made now d u v (ok (stat, name)) never h =
      absurd (never stat (ap (λ p. p.0) h))
  create_at-adds existing o new made now d u v (err not_found) never h = h
  create_at-adds existing o new made now d u v (err _) never h = absurd (cc)

  publish_created-ends :
      (cfg : Config) (a : Answers) (id : DirId) (made : Stat) (s t : Srv x)
      (p : Result (Stat × Bool) × Session x)
      → publish_created x cfg a id s p ≡ (done (ok (made, true)), t)
      → let (ino, n) = next_ino cfg s in
        end_create x id a.start ino (ok (made, true)) (written x id p.1.store n) ≡ t
  publish_created-ends cfg a id made s t (err c, v) f = absurd (cc)
  publish_created-ends cfg a id made s t (ok (stat, b), v) f =
      let same : ◌≡◌ {A = Result (Stat × Bool)} (ok (stat, b)) (ok (made, true)) = ground arith in
      rw (← same) (ap (λ p. p.1) f)

  -- The directory as a creation leaves it in the cache.
  created-dir :
      (cfg : Config) (a : Answers) (id : DirId) (made : Stat) (s t : Srv x) (d e : Dir x)
      (p : Result (Stat × Bool) × Session x)
      → find_dir id s ≡ some d
      → publish_created x cfg a id s p ≡ (done (ok (made, true)), t)
      → find_dir id t ≡ some e
      → (p.0 ≡ ok (made, true))
        × (t.store ≡ p.1.store)
        × (entry_info x e.mtime e.size ≡ entry_info x a.start (inc32 d.size))
  unfolding end_create
  created-dir cfg a id made s t d e (err c, v) h f g = absurd (cc)
  created-dir cfg a id made s t d e (ok (stat, b), v) h f g = (
    same,
    sym (ap (λ u. u.store) leaves) ∙ (change_dir-SameRest (one_more x a.start) id w).store,
    (let q : ◌≡◌ {A = Option (Dir x)} (some (one_more x a.start (lock_dir x (start_tx x n) d)))
            (some e) =
          sym (rw leaves at found) ∙ g in
        ground arith),
  )
    where
      n : Srv x
      n = (next_ino cfg s).1

      w : Srv x
      w = written x id v.store n

      same : ◌≡◌ {A = Result (Stat × Bool)} (ok (stat, b)) (ok (made, true))
      same = ground arith

      leaves : change_dir x (one_more x a.start) id w ≡ t
      leaves = publish_created-ends cfg a id made s t (ok (stat, b), v) f

      found :
          find_dir id (change_dir x (one_more x a.start) id w)
          ≡ some (one_more x a.start (lock_dir x (start_tx x n) d))
      found = find_dir-change_dir (one_more x a.start) id w {d = lock_dir x (start_tx x n) d} (
          find_dir-store id v.store (begin_write x id n)
          ∙ find_dir-begin_write id n {d = d} (find_dir-next_ino cfg id s ∙ h))

  -- When Fcreat has made a file, the size and the modification time of its directory in the cache are
  -- those in the store, so that the directory is the same when it is loaded again. The clock is a
  -- uint64_t.
  pub get_info-fcreat :
      (law : IsStore x) (c : IsCoding x) (cfg : Config) (a : Answers) (o : CreateOptions)
      (made : Stat) (s t : Srv x) (e : Dir x)
      → a.start < u64_mod
      → fcreat x cfg a o s ≡ (done (ok (made, true)), t)
      → find_dir o.dir_id t ≡ some e
      → (get_info x o.dir_id (record { store = t.store; tx = none })).0
        ≡ ok (entry_info x e.mtime e.size)
  unfolding fcreat fcreat_io
  get_info-fcreat law c cfg a o made s t e b h g =
      let w =
        handle-Worked cfg a invalid_argument true o.base
          (created x (λ ino d. fcreat_io x cfg o a.start ino d) cfg a o.dir_id) s t (made, true)
          h in
      let inside = enter-IsEntered cfg a o.dir_id o.name_hash s w.srv w.dir w.inside in
      let n = next_ino cfg w.srv in
      let u = begin_write x o.dir_id n.1 in
      let p = fcreat_io x cfg o a.start n.0 w.dir (writing x u) in
      let r = created-dir cfg a o.dir_id made w.srv t w.dir e p inside.found w.result g in
      let adds =
        create_at-adds (existing_file x o) o.base _ made a.start w.dir u p.1 _
          (λ old z. ground arith) (ap (λ q. (q, p.1)) r.0) in
      rw (r.1, r.2) (add_entry-info law c o.base _ made true a.start w.dir u p.1 b adds)
