-- ===== src/Mds/Stored.antt =====
-- What a creation leaves in the store: the new entry, or the one that was there.
use deltafs.Prelude.{ℕ, ◌≡◌, ◌∙◌, ap, arith, Bool, true, Bytes, [], ◌∷◌, bytes_eq_refl}
use deltafs.Mds.Types.{
  Ext, Result, ok, err, invalid_argument, not_found, DirId, dir_id_eq_refl, Stat, put_node, put_raw,
  dir_meta,
}
use deltafs.Mds.Laws.{IsStore, node_key_eq}
use deltafs.Mds.Db.{Session, set_node, set_info, commit, encode_info}
use deltafs.Mds.Server.{Config, Srv, Dir}
use deltafs.Mds.Dirs.{check_args, check_found}
use deltafs.Mds.Handler.{Options, inc32}
use deltafs.Mds.Quiet.{check_found_checked}
use deltafs.Mds.Write.{add_entry, create_at, writing, entry_info}

module _ (x : Ext) where
  -- The batch of a creation is written as a whole, and the stat is the new one.
  pub add_entry-writes :
      (o : Options) (stat made : Stat) (b : Bool) (now : ℕ) (d : Dir x) (u : Srv x) (v : Session x)
      → add_entry x o stat now d (writing x u) ≡ (ok (made, b), v)
      → (x.write u.store (
            put_node o.dir_id o.name_hash stat o.name
            ∷ put_raw (dir_meta o.dir_id) (encode_info x (entry_info x now (inc32 d.size)))
            ∷ [])
          ≡ (ok tt, v.store))
        × (made ≡ stat)
  unfolding add_entry set_node set_info commit
  add_entry-writes o stat made b now d u v h = ground arith

  pub node_key_eq_refl : (d : DirId) (h : Bytes) → node_key_eq d h d h ≡ true
  node_key_eq_refl d h = rw (dir_id_eq_refl, bytes_eq_refl)

  -- The entry can be read, and its name passes the check.
  unfoldable pub Stored : Config → Options → Stat → x.Store → Type 0
  Stored cfg o made st =
      (name : Bytes) × (check_found x cfg o.name_hash (x.read_node st o.dir_id o.name_hash)
        ≡ ok (made, name))

  add_entry-Stored :
      (law : IsStore x) (cfg : Config) (o : Options) (new made : Stat) (b : Bool) (now : ℕ)
      (d : Dir x) (u : Srv x) (v : Session x)
      → check_args x cfg invalid_argument true o.name_hash o.name ≡ ok tt
      → add_entry x o new now d (writing x u) ≡ (ok (made, b), v)
      → Stored cfg o made v.store
  unfolding Stored
  add_entry-Stored law cfg o new made b now d u v hc h =
      let e = add_entry-writes o new made b now d u v h in
      let read : x.read_node v.store o.dir_id o.name_hash ≡ ok (made, o.name) =
        law.node_written u.store v.store _ o.dir_id o.name_hash e.0 ∙ rw (node_key_eq_refl, e.1) in
      (o.name, rw read (check_found_checked x cfg invalid_argument o.name_hash o.name made hc))

  abbrev pub GivesOld : (Stat → Result (Stat × Bool)) → Type 0
  GivesOld existing = (old made : Stat) (b : Bool) → existing old ≡ ok (made, b) → old ≡ made

  pub create_at-Stored :
      (law : IsStore x) (cfg : Config) (existing : Stat → Result (Stat × Bool)) (o : Options)
      (new made : Stat) (b : Bool) (now : ℕ) (d : Dir x) (u : Srv x) (v : Session x)
      (r : Result (Stat × Bytes))
      → GivesOld existing
      → check_args x cfg invalid_argument true o.name_hash o.name ≡ ok tt
      → check_found x cfg o.name_hash (x.read_node u.store o.dir_id o.name_hash) ≡ r
      → create_at x existing o new now d r (writing x u) ≡ (ok (made, b), v)
      → Stored cfg o made v.store
  unfolding Stored
  create_at-Stored law cfg existing o new made b now d u v (ok (stat, name)) old hc e h =
      let same : writing x u ≡ v = ap (λ p. p.1) h in
      (name, rw (← same) (e ∙ rw (old stat made b (ap (λ p. p.0) h))))
  create_at-Stored law cfg existing o new made b now d u v (err not_found) old hc e h =
      add_entry-Stored law cfg o new made b now d u v hc h
  create_at-Stored law cfg existing o new made b now d u v (err _) old hc e h = absurd (cc)
