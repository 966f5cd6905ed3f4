-- ===== src/Mds/Sessions.antt =====
-- The session ids that Opensession gives out, on one server and on several.
use deltafs.Prelude.{ℕ, zero, suc, ◌+◌, ◌*◌, ◌<◌, ◌≡◌, refl, Bytes, arith}
use deltafs.Mds.Types.{Ext, ok, err, u32_mod}
use deltafs.Mds.Server.{Config, Srv, Reply, done, redirect, init_srv, next_session}
use deltafs.Mds.Read.{opensession}

-- Two numbers below `k` are the same, and so are the multiples added to them, if the sums are.
multiple_unique : (k a b n m : ℕ) → a < k → b < k → a + n * k ≡ b + m * k → (n ≡ m) × (a ≡ b)
multiple_unique k a b zero zero p q h = (refl, omega arith)
multiple_unique k a b zero (suc m) p q h = omega arith
multiple_unique k a b (suc n) zero p q h = omega arith
multiple_unique k a b (suc n) (suc m) p q h =
    let r = multiple_unique k a b n m p q (omega arith) in (omega arith, r.1)

module _ (x : Ext) where
  abbrev id_of : Reply (Bytes × Bytes × Bytes × Bytes × ℕ) → ℕ
  id_of (done (ok (env_name, env_conf, fio_name, fio_conf, id))) = id
  id_of (done (err e)) = 0
  id_of (redirect idx) = 0

  -- The server after it has opened `n` sessions, and the id of the next one.
  abbrev pub opened : Config → x.Store → ℕ → Srv x
  opened cfg store zero = init_srv x cfg store
  opened cfg store (suc n) = let s = opened cfg store n in (opensession x cfg s).1

  abbrev pub session_id : Config → x.Store → ℕ → ℕ
  session_id cfg store n = id_of (opensession x cfg (opened cfg store n)).0

  opened-session :
      (cfg : Config) (store : x.Store) (n : ℕ)
      → cfg.srv_id + n * cfg.num_servers < u32_mod
      → (opened cfg store n).session ≡ cfg.srv_id + n * cfg.num_servers
  unfolding init_srv opensession next_session
  opened-session cfg store zero h = omega arith
  opened-session cfg store (suc n) h =
      let r = opened-session cfg store n (omega arith) in omega arith

  session_id_lem :
      (cfg : Config) (store : x.Store) (n : ℕ)
      → cfg.srv_id + suc n * cfg.num_servers < u32_mod
      → session_id cfg store n ≡ cfg.srv_id + suc n * cfg.num_servers
  unfolding opensession next_session
  session_id_lem cfg store n h = let r = opened-session cfg store n (omega arith) in omega arith

  -- No two of the servers of a system, and no two calls on one of them, give out the same session id,
  -- as long as the ids do not reach the end of their range.
  pub session_id_unique :
      (cfg cfg' : Config) (store store' : x.Store) (n m : ℕ)
      → cfg.num_servers ≡ cfg'.num_servers
      → cfg.srv_id < cfg.num_servers
      → cfg'.srv_id < cfg'.num_servers
      → cfg.srv_id + suc n * cfg.num_servers < u32_mod
      → cfg'.srv_id + suc m * cfg'.num_servers < u32_mod
      → session_id cfg store n ≡ session_id cfg' store' m
      → (n ≡ m) × (cfg.srv_id ≡ cfg'.srv_id)
  session_id_unique cfg cfg' store store' n m e p q b b' h =
      let l = session_id_lem cfg store n b in
      let l' = session_id_lem cfg' store' m b' in
      let r =
        multiple_unique cfg.num_servers cfg.srv_id cfg'.srv_id (suc n) (suc m) p (omega arith)
          (rw (← l, h, l', e)) in
      (omega arith, r.1)
