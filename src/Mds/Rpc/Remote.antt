-- ===== src/Mds/Rpc/Remote.antt =====
-- A client of the metadata server over RPC.
use deltafs.Prelude.{◌≤◌, ◌≡◌, ◌∙◌, sym, ap, Bool, none, arith, length}
use deltafs.Mds.Types.{Ext, ok, err, Stat}
use deltafs.Mds.Laws.{IsStore}
use deltafs.Mds.Server.{Config, Srv, Answers, Reply, done, redirect}
use deltafs.Mds.Write
use deltafs.Mds.Perm.{Waits}
use deltafs.Mds.Visible.{fstat-fcreat}
use deltafs.Mds.Rpc.Wire.{Wire, IsWire}
use deltafs.Mds.Rpc.Calls.{fstat, fcreat, BaseOptions, NewOptions, Created, IsCall, Service}
use deltafs.Mds.Rpc.Codec.{put_call}
use deltafs.Mds.Rpc.Peers.{cli_call, srv_call}
use deltafs.Mds.Rpc.Transparent.{cli_call-srv_call, IsReply, carried}
use deltafs.Mds.Rpc.Server.{server, new_options, to_created, map_reply}

-- The service that a client sees.
abbrev pub remote : (x : Ext) → Wire → Bool → Config → Answers → Waits → Service (Srv x)
remote x w debug cfg a v = cli_call w debug (srv_call w (server x cfg a v))

mapped :
    {x : Ext} (p : Reply (Stat × Bool) × Srv x) (r : Created) (t : Srv x)
    → map_reply to_created p ≡ (done (ok r), t)
    → (flag : Bool) × (p ≡ (done (ok (r.stat, flag)), t))
mapped (done (ok (stat, flag)), s) r t h = (flag, ground arith)
mapped (done (err e), s) r t h = absurd (cc)
mapped (redirect idx, s) r t h = absurd (cc)

module _ (x : Ext) (w : Wire) (l : IsWire w) where
  carried-done :
      (b : BaseOptions) (o : NewOptions) (p : Reply Created × Srv x) (r : Created) (t : Srv x)
      → ◌≡◌ {A = Reply Created × Srv x} (carried w l (fcreat b o) p.0, p.1) (done (ok r), t)
      → p ≡ (done (ok r), t)
  carried-done b o (done (ok q), s) r t h = h
  carried-done b o (done (err e), s) r t h = absurd (cc)
  carried-done b o (redirect idx, s) r t h = absurd (cc)

  -- A client that created a file over RPC finds it by its next call, with the stat that it got. The
  -- options and the results are in the ranges of their types, the requests fit into the buffer of a
  -- message, and the server has not run out of inode numbers.
  pub remote-fstat-fcreat :
      (law : IsStore x) (debug : Bool) (cfg : Config) (a a' : Answers) (v v' : Waits)
      (b : BaseOptions) (o : NewOptions) (r : Created) (s t : Srv x)
      → IsCall (fcreat b o)
      → length (put_call w (fcreat b o)) ≤ w.buf_size
      → length (put_call w (fstat b)) ≤ w.buf_size
      → IsReply (fcreat b o) (server x cfg a v (fcreat b o) s).0
      → t.status ≡ none
      → remote x w debug cfg a v (fcreat b o) s ≡ (done (ok r), t)
      → remote x w debug cfg a' v' (fstat b) t ≡ (done (ok r.stat), t)
  unfolding server
  remote-fstat-fcreat law debug cfg a a' v v' b o r s t hc fits fits' hr alive h =
      cli_call-srv_call w l debug (server x cfg a' v') (fstat b) t hc.0 fits' ranged ∙ rw found
    where
      ran : server x cfg a v (fcreat b o) s ≡ (done (ok r), t)
      ran =
          carried-done b o (server x cfg a v (fcreat b o) s) r t
            (sym (cli_call-srv_call w l debug (server x cfg a v) (fcreat b o) s hc fits hr) ∙ h)

      made :
          (flag : Bool) × (Write.fcreat x cfg a (new_options b o) s ≡ (done (ok (r.stat, flag)), t))
      made = mapped (Write.fcreat x cfg a (new_options b o) s) r t ran

      found : server x cfg a' v' (fstat b) t ≡ (done (ok r.stat), t)
      found = fstat-fcreat x law cfg a a' (new_options b o) r.stat made.0 s t made.1 alive

      ranged : IsReply (fstat b) (server x cfg a' v' (fstat b) t).0
      ranged = rw found (rw (ap (λ p. p.0) ran) at hr)
