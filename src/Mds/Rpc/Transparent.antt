-- ===== src/Mds/Rpc/Transparent.antt =====
-- A call through the RPC layer is the call itself.
use deltafs.Prelude.{
  ◌≤◌, ◌≡◌, refl, Bool, false, ◌==◌, ◌&&◌, true, [], Option, some, Bytes, length, arith, inl, inr,
  Bool-cases, ltb,
}
use deltafs.Mds.Types.{ok, err}
use deltafs.Mds.Server.{Reply, done, redirect}
use deltafs.Mds.Rpc.Wire.{Wire, IsWire}
use deltafs.Mds.Rpc.Calls.{
  Call, fstat, lookup, listdir, readidx, fcreat, mkdir, chmod, unlink, chown, uperm, utime, trunc,
  opensession, getinput, getoutput, Ret, Service, IsCall, IsRet,
}
use deltafs.Mds.Rpc.Codec.{
  op_of, put_call, get_fstat, get_fcret, get_mkdir, get_chmod, get_chown, get_uperm, get_utime,
  get_trunc, get_unlnk, get_lokup, get_lsdir, get_rdidx, no_more, get_dir_options,
}
use deltafs.Mds.Rpc.Requests.{
  call-Reads, dir_options-Reads, new-Reads, perm-Reads, owner-Reads, time-Reads, size-Reads,
  Reads-whole,
}
use deltafs.Mds.Rpc.Peers.{
  Msg, srv_call, serve, answered, answer, reply, outcome, received, cli_call, on_entry, redirected,
}
use deltafs.Mds.Rpc.Answers.{fit, get_ret-put_ret}

abbrev request : Wire → Call → Msg
request w c = record { op = op_of c; err = 0; contents = put_call w c }

-- The result of a call, if there is one, is in its range.
abbrev pub IsReply : (c : Call) → Reply (Ret c) → Type 0
IsReply c (done (ok r)) = IsRet c r
IsReply c (done (err e)) = Unit {0}
IsReply c (redirect idx) = Unit {0}

-- A reply as it comes back.
abbrev pub carried : (w : Wire) → IsWire w → (c : Call) → Reply (Ret c) → Reply (Ret c)
carried w l c (done (ok r)) = done (ok (fit w l c r))
carried w l c (done (err e)) = done (err e)
carried w l c (redirect idx) = redirect idx

redirect_on :
    (w : Wire) (c : Call) (idx : Bytes)
    → on_entry c ≡ false
    → answer w c (redirect idx) ≡ redirect idx
unfolding answer
redirect_on w c idx e = rw e

module _ (w : Wire) (l : IsWire w) {S : Type 0} where
  serve_read :
      (mds : Service S) (c : Call) (s : S) (r : Option (Call × Bytes))
      → r ≡ some (c, [])
      → serve w mds r s ≡ answered w c (mds c s)
  unfolding serve
  serve_read mds c s r e = rw e

  -- The server runs the call that was sent.
  srv_call-request :
      (mds : Service S) (c : Call) (s : S)
      → IsCall c
      → srv_call w mds (request w c) s ≡ answered w c (mds c s)
  unfolding srv_call put_call get_fstat get_fcret get_mkdir get_chmod get_chown get_uperm get_utime
      get_trunc get_unlnk get_lokup get_lsdir get_rdidx
  srv_call-request mds (fstat b) s h =
      serve_read mds (fstat b) s _
        (call-Reads w l (λ b _. fstat b) no_more b tt [] h (λ rest. refl))
  srv_call-request mds (lookup b) s h =
      serve_read mds (lookup b) s _
        (call-Reads w l (λ b _. lookup b) no_more b tt [] h (λ rest. refl))
  srv_call-request mds (listdir b) s h =
      serve_read mds (listdir b) s _
        (rw (Reads-whole w l (get_dir_options w) b _ (dir_options-Reads w l b h)))
  srv_call-request mds (readidx b) s h =
      serve_read mds (readidx b) s _
        (rw (Reads-whole w l (get_dir_options w) b _ (dir_options-Reads w l b h)))
  srv_call-request mds (fcreat b o) s h =
      serve_read mds (fcreat b o) s _
        (call-Reads w l fcreat _ b o _ h.0 (new-Reads w l o (h.1, h.2, h.3, h.4)))
  srv_call-request mds (mkdir b o) s h =
      serve_read mds (mkdir b o) s _
        (call-Reads w l mkdir _ b o _ h.0 (new-Reads w l o (h.1, h.2, h.3, h.4)))
  srv_call-request mds (chmod b mode) s h =
      serve_read mds (chmod b mode) s _ (call-Reads w l chmod _ b mode _ h.0 (l.varint32 mode h.1))
  srv_call-request mds (unlink b flags) s h =
      serve_read mds (unlink b flags) s _
        (call-Reads w l unlink _ b flags _ h.0 (l.varint32 flags h.1))
  srv_call-request mds (chown b o) s h =
      serve_read mds (chown b o) s _
        (call-Reads w l chown _ b o _ h.0 (owner-Reads w l o (h.1, h.2)))
  srv_call-request mds (uperm b o) s h =
      serve_read mds (uperm b o) s _
        (call-Reads w l uperm _ b o _ h.0 (perm-Reads w l o (h.1, h.2, h.3)))
  srv_call-request mds (utime b o) s h =
      serve_read mds (utime b o) s _
        (call-Reads w l utime _ b o _ h.0 (time-Reads w l o (h.1, h.2)))
  srv_call-request mds (trunc b o) s h =
      serve_read mds (trunc b o) s _
        (call-Reads w l trunc _ b o _ h.0 (size-Reads w l o (h.1, h.2)))
  srv_call-request mds opensession s h = serve_read mds opensession s _ refl
  srv_call-request mds getinput s h = serve_read mds getinput s _ refl
  srv_call-request mds getoutput s h = serve_read mds getoutput s _ refl

  redirect_back :
      (c : Call) (idx : Bytes)
      → on_entry c ≡ true
      → (s : S) → received w c (answer w c (redirect idx), s) ≡ (redirect idx, s)
  unfolding answer outcome
  redirect_back c idx e s =
      let sent : answer w c (redirect idx) ≡ reply w redirected idx = rw e in
      let seen : outcome w c (record { op = 0; err = redirected; contents = idx }) ≡ redirect idx =
        rw e in
      rw (sent, seen)

  -- The sender understands the message that the server made.
  received-answered :
      (c : Call) (r : Reply (Ret c)) (s : S)
      → IsReply c r
      → received w c (answered w c (r, s)) ≡ (carried w l c r, s)
  unfolding answer outcome
  received-answered c (done (ok r)) s h = elim (Bool-cases (on_entry c)) [
    | inl e ↦ rw (e, get_ret-put_ret w l c r h)
    | inr e ↦ rw (e, get_ret-put_ret w l c r h)
  ]
  received-answered c (done (err e)) s h =
      let pos = l.code_pos e in
      let small = l.code_small e in
      let other : (w.err_code e == redirected) ≡ false = ground arith in
      let wrong : (w.err_code e == 0) ≡ false = ground arith in
      elim (Bool-cases (on_entry c)) [
        | inl y ↦ rw (y, other, wrong, l.code e)
        | inr n ↦ rw (n, wrong, l.code e)
      ]
  received-answered c (redirect idx) s h = elim (Bool-cases (on_entry c)) [
    | inl e ↦ redirect_back c idx e s
    | inr e ↦ rw (redirect_on w c idx e)
  ]

  -- A call through the RPC layer, with a stub that brings each message to the other side, does on the
  -- server what the call does there and returns the same, a redirection or an error included. Only
  -- of the names of a directory those are left out that come after 1000 bytes of names. The options
  -- and the results must be in the ranges of their types, and the request must fit into the buffer of
  -- a message.
  pub cli_call-srv_call :
      (debug : Bool) (mds : Service S) (c : Call) (s : S)
      → IsCall c
      → length (put_call w c) ≤ w.buf_size
      → IsReply c (mds c s).0
      → cli_call w debug (srv_call w mds) c s ≡ (carried w l c (mds c s).0, (mds c s).1)
  unfolding cli_call
  cli_call-srv_call debug mds c s h fits r =
      let room : ltb w.buf_size (length (put_call w c)) ≡ false = ground arith in
      let sent : (debug && on_entry c && ltb w.buf_size (length (put_call w c))) ≡ false =
        ground arith in
      rw (sent, srv_call-request mds c s h) (received-answered c (mds c s).0 (mds c s).1 r)
