-- ===== src/Cli/Ends.antt =====
-- The loop over redirections of src/libdeltafs/mds_cli.cc comes to an end.
use deltafs.Prelude.{
  ℕ, zero, suc, ◌-◌, ◌<◌, ◌≤◌, ◌≡◌, ◌≢◌, refl, Bool, true, false, ◌||◌, not, ◌==◌, Option, none,
  some, Bytes, arith,
}
use deltafs.Mds.Types.{ok, err, try_again, DirId, u32_mod}
use deltafs.Mds.Server.{Reply, done, redirect}
use deltafs.Mds.Handler.{dec32}
use deltafs.Mds.Rpc.Calls.{Call, Ret, BaseOptions}
use deltafs.Cli.State.{
  Common, CliConfig, Cli, Outside, Out, returned, failed, thrown, running, bind,
}
use deltafs.Cli.Redirect.{Loop, copied, moved, redirected, settle, send, keep_if, routed}

abbrev pub is_running : {A : Type 0} → Out A → Bool
is_running (returned a) = false
is_running (failed e missing) = false
is_running (thrown idx) = false
is_running running = true

module _ (x : Common) {S A : Type 0} (again : Loop x S A) (s : Cli x S) where
  moved-is_running :
      (r : ℕ) (next : Option x.Index)
      → ((t : Option x.Index) → is_running (again t r s).0 ≡ false)
      → is_running (moved x again r next s).0 ≡ false
  moved-is_running r none h = refl
  moved-is_running r (some t) h = h (some t)

  redirected-is_running :
      (idx : x.Index) (r : ℕ) (re : Bytes) (b : Bool)
      → (b ≡ false → (t : Option x.Index) → is_running (again t r s).0 ≡ false)
      → is_running (redirected x again idx r re b s).0 ≡ false
  redirected-is_running idx r re true h = refl
  redirected-is_running idx r re false h = moved-is_running r (x.update_index idx re) (h refl)

  -- One round ends if the rounds do that may follow with one redirect less.
  settle-is_running :
      (idx : x.Index) (tmp : Option x.Index) (r : ℕ) (reply : Reply A)
      → 0 < r
      → r < u32_mod
      → reply ≢ done (err try_again)
      → ((t : Option x.Index) → 1 < r → is_running (again t (r - 1) s).0 ≡ false)
      → is_running (settle x again idx tmp r reply s).0 ≡ false
  unfolding settle
  settle-is_running idx tmp r (done (ok a)) p b never h = refl
  settle-is_running idx tmp r (done (err try_again)) p b never h = absurd (never refl)
  settle-is_running idx tmp r (done (err _)) p b never h = refl
  settle-is_running idx tmp r (redirect re) p b never h =
      redirected-is_running (copied x idx tmp) (dec32 r) re (dec32 r == 0)
        λ e t. let less : dec32 r ≡ r - 1 = omega arith in rw less (h t (ground arith))

module _ (x : Common) {S : Type 0} (out : Outside S) (c : Call) where
  -- No server answers the call with "try again".
  abbrev pub NeverTryAgain : Type 0
  NeverTryAgain = (n : ℕ) (w : S) → (out.get n c w).0 ≢ done (err try_again)

  module _ (never : NeverTryAgain) (name_hash : Bytes) (idx : x.Index) where
    send-is_running :
        (fuel r : ℕ) (tmp : Option x.Index) (s : Cli x S)
        → 0 < r
        → r < u32_mod
        → r ≤ fuel
        → is_running (send x out c name_hash fuel idx tmp r s).0 ≡ false
    unfolding send
    send-is_running zero r tmp s p b l = absurd (omega arith)
    send-is_running (suc fuel) r tmp s p b l =
        settle-is_running x _ _ idx tmp r _ p b (never _ s.world)
          (λ t q. send-is_running fuel (r - 1) t _ (omega arith) (omega arith) (omega arith))

  bind-is_running :
      {A B : Type 0} (m : Out A × Cli x S) (f : A → Cli x S → Out B × Cli x S)
      → is_running m.0 ≡ false
      → ((a : A) (s : Cli x S) → is_running (f a s).0 ≡ false)
      → is_running (bind m f).0 ≡ false
  bind-is_running (returned a, s) f h k = k a s
  bind-is_running (failed e missing, s) f h k = refl
  bind-is_running (thrown re, s) f h k = refl
  bind-is_running (running, s) f h k = cc

  keep_if-is_running :
      {A : Type 0} (id : DirId) (ret : A) (tmp : Option x.Index) (b : Bool) (s : Cli x S)
      → is_running (keep_if x id ret tmp b s).0 ≡ false
  keep_if-is_running id ret tmp false s = refl
  keep_if-is_running id ret none true s = refl
  keep_if-is_running id ret (some tmp) true s = refl

  -- A call on an entry ends within as many rounds as redirects are allowed, however the servers
  -- redirect it, if no server answers "try again" and at least one redirect is allowed (as an
  -- `int` that is not negative, or its 32-bit pattern).
  pub routed-is_running :
      (never : NeverTryAgain) (cfg : CliConfig) (fuel : ℕ) (b : BaseOptions) (valid : Ret c → Bool)
      (idx : x.Index) (s : Cli x S)
      → 0 < cfg.max_redirects_allowed
      → cfg.max_redirects_allowed < u32_mod
      → cfg.max_redirects_allowed ≤ fuel
      → is_running (routed x cfg out fuel c b valid idx s).0 ≡ false
  unfolding routed
  routed-is_running never cfg fuel b valid idx s p h l =
      bind-is_running _ _
        (send-is_running never b.name_hash idx fuel cfg.max_redirects_allowed none s p h l)
        (λ (ret, tmp). keep_if-is_running b.dir_id ret tmp (not cfg.paranoid_checks || valid ret))
