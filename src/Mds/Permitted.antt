-- ===== src/Mds/Permitted.antt =====
-- What Uperm changes of a mode.
use deltafs.Prelude.{ℕ, ◌≡◌, ◌≢◌, refl, ◌∙◌, ap, arith, Bytes, Bool-cases, inl, inr, ◌==◌, [], ◌∷◌}
use deltafs.Mds.Types.{
  Ext, Result, ok, err, Stat, file_type, access_perms, put_node, put_raw, dir_meta,
}
use deltafs.Mds.Laws.{IsStore}
use deltafs.Mds.Db.{Session, get_node, set_node, set_info, commit, encode_info}
use deltafs.Mds.Server.{Config, Srv, Dir}
use deltafs.Mds.Write.{writing, entry_info}
use deltafs.Mds.Dirs.{check_found}
use deltafs.Mds.Stored.{node_key_eq_refl}
use deltafs.Mds.Perm.{UpermOptions, uperm_io, new_perms, non_mod}

module _ (x : Ext) where
  new_perms-file_type :
      (o : UpermOptions) (now : ℕ) (stat : Stat)
      → file_type (new_perms x o now stat).file_mode ≡ file_type stat.file_mode
  new_perms-file_type o now stat = elim (Bool-cases (o.mode == non_mod)) [
    | inl e ↦ rw e
    | inr e ↦ rw e (omega arith)
  ]

  new_perms-access_perms :
      (o : UpermOptions) (now : ℕ) (stat : Stat)
      → o.mode ≢ non_mod
      → access_perms (new_perms x o now stat).file_mode ≡ access_perms o.mode
  new_perms-access_perms o now stat n = elim (Bool-cases (o.mode == non_mod)) [
    | inl e ↦ absurd (n (ground arith))
    | inr e ↦ rw e (omega arith)
  ]

  -- The batch of Uperm is written as a whole: the entry with its new stat, under the name that the
  -- store had, and the directory's info.
  record Written (cfg : Config) (o : UpermOptions) (now : ℕ) (d : Dir x) (made : Stat)
      (st st' : x.Store) : Type 0 where
    stat : Stat
    name : Bytes
    found : x.read_node st o.dir_id o.name_hash ≡ ok (stat, name)
    same : made ≡ new_perms x o now stat
    written :
        x.write st (
          put_node o.dir_id o.name_hash made name
          ∷ put_raw (dir_meta o.dir_id) (encode_info x (entry_info x now d.size))
          ∷ [])
        ≡ (ok tt, st')

  check_found_read :
      (cfg : Config) (hash name : Bytes) (stat : Stat) (r : Result (Stat × Bytes))
      → check_found x cfg hash r ≡ ok (stat, name)
      → r ≡ ok (stat, name)
  unfolding check_found
  check_found_read cfg hash name stat (ok (old, n)) h = ground arith
  check_found_read cfg hash name stat (err c) h = absurd (cc)

  uperm_io-Written :
      (cfg : Config) (o : UpermOptions) (now : ℕ) (d : Dir x) (made : Stat) (u : Srv x)
      (v : Session x) (r : Result (Stat × Bytes))
      → check_found x cfg o.name_hash (x.read_node u.store o.dir_id o.name_hash) ≡ r
      → uperm_io x cfg o now d (writing x u) ≡ (ok made, v)
      → Written cfg o now d made u.store v.store
  unfolding uperm_io get_node set_node set_info commit
  uperm_io-Written cfg o now d made u v (ok (stat, name)) e h = record {
    stat = stat;
    name = name;
    found = check_found_read cfg o.name_hash name stat _ e;
    same = ground arith;
    written = ground arith;
  }
  uperm_io-Written cfg o now d made u v (err c) e h = absurd (ground arith)

  -- If Uperm is given a mode and succeeds, the entry that the store had is afterwards in the store
  -- under the same name with the stat that Uperm replies with. Its file type is that of the old stat,
  -- and its permissions are those of the mode.
  pub uperm_io-access_perms :
      (law : IsStore x) (cfg : Config) (o : UpermOptions) (now : ℕ) (d : Dir x) (made : Stat)
      (u : Srv x) (v : Session x)
      → o.mode ≢ non_mod
      → uperm_io x cfg o now d (writing x u) ≡ (ok made, v)
      → (stat : Stat) × (name : Bytes) × (x.read_node u.store o.dir_id o.name_hash
          ≡ ok (stat, name))
        × (x.read_node v.store o.dir_id o.name_hash ≡ ok (made, name))
        × (file_type made.file_mode ≡ file_type stat.file_mode)
        × (access_perms made.file_mode ≡ access_perms o.mode)
  uperm_io-access_perms law cfg o now d made u v n h =
      let w = uperm_io-Written cfg o now d made u v _ refl h in
      (
        w.stat,
        w.name,
        w.found,
        law.node_written u.store v.store _ o.dir_id o.name_hash w.written ∙ rw (node_key_eq_refl x),
        ap (λ m. file_type m.file_mode) w.same ∙ new_perms-file_type o now w.stat,
        ap (λ m. access_perms m.file_mode) w.same ∙ new_perms-access_perms o now w.stat n,
      )
