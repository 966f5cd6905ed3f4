-- ===== src/Mds/Rpc/Peers.antt =====
-- The two ends of an RPC in src/libdeltafs/mds_api.cc: `MDS::RPC::SRV`, which runs a call on an MDS,
-- and `MDS::RPC::CLI`, which is an MDS itself. The stub between them is a parameter.
use deltafs.Prelude.{
  ℕ, ◌-◌, Bool, true, false, ◌&&◌, ltb, ◌==◌, [], Option, none, some, Bytes, length, if◌then◌else◌,
}
use deltafs.Mds.Types.{ok, err, buffer_full, not_supported, invalid_argument, corruption, u32_mod}
use deltafs.Mds.Server.{Reply, done, redirect}
use deltafs.Mds.Rpc.Wire.{Wire}
use deltafs.Mds.Rpc.Calls.{
  Call, fstat, lookup, listdir, readidx, fcreat, mkdir, chmod, unlink, chown, uperm, utime, trunc,
  opensession, getinput, getoutput, Ret, Service,
}
use deltafs.Mds.Rpc.Codec.{
  op_of, put_call, get_fstat, get_fcret, get_mkdir, get_chmod, get_chown, get_uperm, get_utime,
  get_trunc, get_unlnk, get_lokup, get_lsdir, get_rdidx,
}
use deltafs.Mds.Rpc.Results.{put_ret, get_ret}

-- `err` is an `int`; the number is its 32-bit pattern.
pub record Msg : Type 0 where
  pub op : ℕ
  pub err : ℕ
  pub contents : Bytes

-- -1, the mark of a redirection.
abbrev pub redirected : ℕ
redirected = u32_mod - 1

-- The calls on one entry of a directory. Their handlers turn a redirection into a message, and their
-- senders know it and check the size of the request in debug builds.
abbrev pub on_entry : Call → Bool
on_entry (listdir b) = false
on_entry (readidx b) = false
on_entry opensession = false
on_entry getinput = false
on_entry getoutput = false
on_entry (fstat b) = true
on_entry (lookup b) = true
on_entry (fcreat b o) = true
on_entry (mkdir b o) = true
on_entry (chmod b mode) = true
on_entry (unlink b flags) = true
on_entry (chown b o) = true
on_entry (uperm b o) = true
on_entry (utime b o) = true
on_entry (trunc b o) = true

-- How messages travel. A redirection that no handler catches goes on as an exception.
abbrev pub Stub : Type 0 → Type 0
Stub S = Msg → S → Reply Msg × S

module _ (w : Wire) where
  abbrev pub reply : ℕ → Bytes → Reply Msg
  reply e contents = done (ok (record { op = 0; err = e; contents = contents }))

  -- The message for the outcome of a call.
  unfoldable pub answer : (c : Call) → Reply (Ret c) → Reply Msg
  answer c (done (ok r)) = reply 0 (put_ret w c r)
  answer c (done (err e)) = reply (w.err_code e) []
  answer c (redirect idx) = if on_entry c then reply redirected idx else redirect idx

  abbrev pub decoded : {A : Type 0} → Option A → Reply A
  decoded none = done (err corruption)
  decoded (some a) = done (ok a)

  -- What the sender makes of a message that came back.
  unfoldable pub outcome : (c : Call) → Msg → Reply (Ret c)
  outcome c m =
      if on_entry c && (m.err == redirected)
      then redirect m.contents
      else if m.err == 0
      then decoded (get_ret w c m.contents)
      else done (err (w.from_code m.err))

  module _ {S : Type 0} where
    abbrev pub answered : (c : Call) → Reply (Ret c) × S → Reply Msg × S
    answered c (r, s) = (answer c r, s)

    -- A handler of `MDS::RPC::SRV`, after it has read the options.
    unfoldable pub serve : Service S → Option (Call × Bytes) → S → Reply Msg × S
    serve mds none s = (reply (w.err_code invalid_argument) [], s)
    serve mds (some (c, rest)) s = answered c (mds c s)

    -- MDS::RPC::SRV::Call.
    unfoldable pub srv_call : Service S → Stub S
    srv_call mds m s =
        if m.op == 10
        then serve mds (get_lokup w m.contents) s
        else if m.op == 1
        then serve mds (get_fstat w m.contents) s
        else if m.op == 2
        then serve mds (get_fcret w m.contents) s
        else if m.op == 8
        then serve mds (get_trunc w m.contents) s
        else if m.op == 9
        then serve mds (get_unlnk w m.contents) s
        else if m.op == 3
        then serve mds (get_mkdir w m.contents) s
        else if m.op == 4
        then serve mds (get_chmod w m.contents) s
        else if m.op == 5
        then serve mds (get_chown w m.contents) s
        else if m.op == 6
        then serve mds (get_uperm w m.contents) s
        else if m.op == 7
        then serve mds (get_utime w m.contents) s
        else if m.op == 11
        then serve mds (get_lsdir w m.contents) s
        else if m.op == 12
        then serve mds (get_rdidx w m.contents) s
        else if m.op == 13
        then serve mds (some (opensession, [])) s
        else if m.op == 14
        then serve mds (some (getinput, [])) s
        else if m.op == 15
        then serve mds (some (getoutput, [])) s
        else if m.op == 0
        then (reply 0 [], s)
        else (reply (w.err_code not_supported) [], s)

    abbrev pub received : (c : Call) → Reply Msg × S → Reply (Ret c) × S
    received c (done (ok m), s) = (outcome c m, s)
    received c (done (err e), s) = (done (err e), s)
    received c (redirect idx, s) = (redirect idx, s)

    -- A call of `MDS::RPC::CLI`, in a debug build or not. A release build does not see that a request
    -- overflows the buffer.
    unfoldable pub cli_call : Bool → Stub S → Service S
    cli_call debug stub c s =
        if debug && on_entry c && ltb w.buf_size (length (put_call w c))
        then (done (err buffer_full), s)
        else received c (stub (record { op = op_of c; err = 0; contents = put_call w c }) s)
