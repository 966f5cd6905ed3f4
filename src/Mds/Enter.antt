-- ===== src/Mds/Enter.antt =====
-- What the entry sequence of a handler establishes, and when it goes through again.
use deltafs.Prelude.{◌≡◌, refl, true, Bytes, none, some, inl, inr, arith, ◌==◌, Option-cases}
use deltafs.Mds.Types.{Ext, Result, ok, err, DirId, DirInfo, dir_id_eq, dir_id_eq_refl}
use deltafs.Mds.Table.{
  find-put_self, find-insert_self, insert, Inserted-cases, Inserted, inserted, exists_already,
  no_buffers,
}
use deltafs.Mds.Server.{
  Config, Srv, Dir, Answers, find_dir, put_dir, insert_dir, probe_dir, dir_busy,
}
use deltafs.Mds.Dirs.{enter, entered, fetch_dir, fetched, cached, loaded, new_dir}

module _ {x : Ext} where
  pub find_dir-put_dir :
      (id : DirId) {d : Dir x} (e : Dir x) (s : Srv x)
      → find_dir id s ≡ some d
      → find_dir id (put_dir id e s) ≡ some e
  unfolding find_dir put_dir
  find_dir-put_dir id {d} e s h = find-put_self dir_id_eq dir_id_eq_refl id {w = d} e s.dirs h

  find_dir-insert_dir :
      (a : Answers) (id : DirId) (d : Dir x) (s t : Srv x)
      → insert_dir a id d s ≡ inserted t
      → find_dir id t ≡ some d
  unfolding find_dir insert_dir
  find_dir-insert_dir a id d s t h =
      elim (Inserted-cases (insert dir_id_eq a.dir_room dir_busy id d s.dirs)) [
        | inl e ↦ ground arith
        | inr (inl e) ↦ ground arith
        | inr (inr (u, e)) ↦ ground (
          arith,
          find-insert_self dir_id_eq dir_id_eq_refl a.dir_room dir_busy id d s.dirs {u = u} e,
        )
      ]

  cached-found :
      (a : Answers) (id : DirId) (s t : Srv x) (d e : Dir x) (r : Inserted (Srv x))
      → insert_dir a id d s ≡ r
      → cached x s d r ≡ (ok e, t)
      → find_dir id t ≡ some e
  cached-found a id s t d e exists_already i h = cc
  cached-found a id s t d e no_buffers i h = cc
  cached-found a id s t d e (inserted u) i h = ground (arith, find_dir-insert_dir a id d s u i)

  loaded-found :
      (a : Answers) (id : DirId) (s t : Srv x) (e : Dir x) (r : Result (DirInfo × x.Index))
      → loaded x a id s r ≡ (ok e, t)
      → find_dir id t ≡ some e
  loaded-found a id s t e (ok (info, index)) h =
      cached-found a id s t (new_dir x (info, index)) e _ refl h
  loaded-found a id s t e (err c) h = cc

  pub fetch_dir-found :
      (cfg : Config) (a : Answers) (id : DirId) (s t : Srv x) (d : Dir x)
      → fetch_dir x cfg a id s ≡ (ok d, t)
      → find_dir id t ≡ some d
  unfolding fetch_dir
  fetch_dir-found cfg a id s t d h = elim (Option-cases (find_dir id s)) [
    | inl e ↦ loaded-found a id _ t d _ (rw (e, fetch_dir) at h)
    | inr (c, e) ↦ ground arith
  ]

  -- A handler that has entered its directory finds it in the cache, and nothing is fenced.
  pub record IsEntered (cfg : Config) (id : DirId) (hash : Bytes) (d : Dir x) (s : Srv x)
      : Type 0 where
    pub found : find_dir id s ≡ some d
    pub alive : s.status ≡ none
    pub usable : d.status ≡ none
    pub mine : (x.hash_to_server d.index hash == cfg.srv_id) ≡ true

  fetched-IsEntered :
      (cfg : Config) (a : Answers) (id : DirId) (hash : Bytes) (s t : Srv x) (d : Dir x)
      (p : Result (Dir x) × Srv x)
      → fetch_dir x cfg a id s ≡ p
      → fetched x cfg hash p ≡ entered d t
      → IsEntered cfg id hash d t
  unfolding probe_dir
  fetched-IsEntered cfg a id hash s t d (ok e, u) q h =
      let found = fetch_dir-found cfg a id s u e q in ground arith
  fetched-IsEntered cfg a id hash s t d (err c, u) q h = absurd (cc)

  pub enter-IsEntered :
      (cfg : Config) (a : Answers) (id : DirId) (hash : Bytes) (s t : Srv x) (d : Dir x)
      → enter x cfg a id hash s ≡ entered d t
      → IsEntered cfg id hash d t
  unfolding enter
  enter-IsEntered cfg a id hash s t d h = fetched-IsEntered cfg a id hash s t d _ refl h

  pub enter_again :
      (cfg : Config) (a : Answers) (id : DirId) (hash : Bytes) (s : Srv x) (d : Dir x)
      → IsEntered cfg id hash d s
      → enter x cfg a id hash s ≡ entered d s
  unfolding enter probe_dir fetch_dir
  enter_again cfg a id hash s d h = ground arith
