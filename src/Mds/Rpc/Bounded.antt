-- ===== src/Mds/Rpc/Bounded.antt =====
-- What a message, whatever it holds, makes a server do.
use deltafs.Prelude.{
  ℕ, ◌<◌, ◌≡◌, ◌≢◌, refl, ◌∙◌, ap, arith, Bool, true, false, ◌==◌, [], Option, none, some, Bytes,
  inl, inr, ◌⊎◌, if◌then◌else◌,
}
use deltafs.Mds.Types.{invalid_argument, not_supported, DirId}
use deltafs.Mds.Server.{Reply}
use deltafs.Mds.Rpc.Wire.{Wire, Parser, bind, pure}
use deltafs.Mds.Rpc.Calls.{
  Call, fstat, lookup, listdir, readidx, fcreat, mkdir, chmod, unlink, chown, uperm, utime, trunc,
  opensession, getinput, getoutput, Service, BaseOptions, DirOptions, NewOptions,
}
use deltafs.Mds.Rpc.Codec.{
  op_of, get_fstat, get_fcret, get_mkdir, get_chmod, get_chown, get_uperm, get_utime, get_trunc,
  get_unlnk, get_lokup, get_lsdir, get_rdidx,
}
use deltafs.Mds.Rpc.Peers.{Msg, srv_call, serve, answered, reply}

if_cases :
    {A : Type 0} (P : A → Type 0) (b : Bool) (p q : A)
    → (b ≡ true → P p)
    → (b ≡ false → P q)
    → P (if b then p else q)
if_cases P true p q h k = h refl
if_cases P false p q h k = k refl

module _ (w : Wire) where
  -- What the contents of a message are read with, for each kind of call.
  abbrev pub reader_of : Call → Parser Call
  reader_of (fstat b) = get_fstat w
  reader_of (lookup b) = get_lokup w
  reader_of (listdir b) = get_lsdir w
  reader_of (readidx b) = get_rdidx w
  reader_of (fcreat b o) = get_fcret w
  reader_of (mkdir b o) = get_mkdir w
  reader_of (chmod b mode) = get_chmod w
  reader_of (unlink b flags) = get_unlnk w
  reader_of (chown b o) = get_chown w
  reader_of (uperm b o) = get_uperm w
  reader_of (utime b o) = get_utime w
  reader_of (trunc b o) = get_trunc w
  reader_of opensession = λ input. some (opensession, [])
  reader_of getinput = λ input. some (getinput, [])
  reader_of getoutput = λ input. some (getoutput, [])

  -- A call of the same kind.
  abbrev Alike : Call → Call → Type 0
  Alike k c = (op_of c ≡ op_of k) × (reader_of c ≡ reader_of k)

  abbrev ReadsAlike : Call → Type 0
  ReadsAlike k =
      (bs : Bytes) (c : Call) (rest : Bytes) → reader_of k bs ≡ some (c, rest) → Alike k c

  same-Alike : (k c : Call) → k ≡ c → Alike k c
  same-Alike k c e = rw (← e) (refl, refl)

  made-Alike :
      {A : Type 0} (k : Call) (f : A → Call) (c : Call) (rest : Bytes) (r : Option (A × Bytes))
      → ((a : A) → Alike k (f a))
      → bind r (λ a. pure (f a)) ≡ some (c, rest)
      → Alike k c
  made-Alike k f c rest none h e = absurd (cc)
  made-Alike k f c rest (some (a, i)) h e = let same : f a ≡ c = ground arith in rw (← same) (h a)

  reader_of-ReadsAlike : (k : Call) → ReadsAlike k
  unfolding get_fstat get_lokup get_lsdir get_rdidx get_fcret get_mkdir get_chmod get_unlnk
      get_chown get_uperm get_utime get_trunc
  reader_of-ReadsAlike (fstat b) bs c rest e =
      made-Alike (fstat b) (λ (b, _). fstat b) c rest _ (λ a. (refl, refl)) e
  reader_of-ReadsAlike (lookup b) bs c rest e =
      made-Alike (lookup b) (λ (b, _). lookup b) c rest _ (λ a. (refl, refl)) e
  reader_of-ReadsAlike (listdir b) bs c rest e =
      made-Alike (listdir b) listdir c rest _ (λ a. (refl, refl)) e
  reader_of-ReadsAlike (readidx b) bs c rest e =
      made-Alike (readidx b) readidx c rest _ (λ a. (refl, refl)) e
  reader_of-ReadsAlike (fcreat b o) bs c rest e =
      made-Alike (fcreat b o) (λ (b, o). fcreat b o) c rest _ (λ a. (refl, refl)) e
  reader_of-ReadsAlike (mkdir b o) bs c rest e =
      made-Alike (mkdir b o) (λ (b, o). mkdir b o) c rest _ (λ a. (refl, refl)) e
  reader_of-ReadsAlike (chmod b m) bs c rest e =
      made-Alike (chmod b m) (λ (b, o). chmod b o) c rest _ (λ a. (refl, refl)) e
  reader_of-ReadsAlike (unlink b m) bs c rest e =
      made-Alike (unlink b m) (λ (b, o). unlink b o) c rest _ (λ a. (refl, refl)) e
  reader_of-ReadsAlike (chown b o) bs c rest e =
      made-Alike (chown b o) (λ (b, o). chown b o) c rest _ (λ a. (refl, refl)) e
  reader_of-ReadsAlike (uperm b o) bs c rest e =
      made-Alike (uperm b o) (λ (b, o). uperm b o) c rest _ (λ a. (refl, refl)) e
  reader_of-ReadsAlike (utime b o) bs c rest e =
      made-Alike (utime b o) (λ (b, o). utime b o) c rest _ (λ a. (refl, refl)) e
  reader_of-ReadsAlike (trunc b o) bs c rest e =
      made-Alike (trunc b o) (λ (b, o). trunc b o) c rest _ (λ a. (refl, refl)) e
  reader_of-ReadsAlike opensession bs c rest e = same-Alike opensession c (ground arith)
  reader_of-ReadsAlike getinput bs c rest e = same-Alike getinput c (ground arith)
  reader_of-ReadsAlike getoutput bs c rest e = same-Alike getoutput c (ground arith)

  module _ {S : Type 0} (mds : Service S) (s : S) where
    -- The call that the message holds is made, and its outcome answered.
    abbrev pub Made : Msg → Reply Msg × S → Type 0
    Made m p =
        (c : Call) × (rest : Bytes) × (op_of c ≡ m.op)
        × (reader_of c m.contents ≡ some (c, rest))
        × (p ≡ answered w c (mds c s))

    -- The message names a kind of call and does not hold one.
    abbrev pub Malformed : Msg → Reply Msg × S → Type 0
    Malformed m p =
        (k : Call) × (op_of k ≡ m.op)
        × (reader_of k m.contents ≡ none)
        × (p ≡ (reply w (w.err_code invalid_argument) [], s))

    abbrev pub OneCall : Msg → Reply Msg × S → Type 0
    OneCall m p =
        Made m p
        ⊎ Malformed m p
        ⊎ ((m.op ≡ 0) × (p ≡ (reply w 0 [], s)))
        ⊎ ((15 < m.op) × (p ≡ (reply w (w.err_code not_supported) [], s)))

    serve-OneCall :
        (k : Call) (m : Msg) (r : Option (Call × Bytes))
        → op_of k ≡ m.op
        → reader_of k m.contents ≡ r
        → OneCall m (serve w mds r s)
    unfolding serve
    serve-OneCall k m none n e = inr (inl (k, n, e, refl))
    serve-OneCall k m (some (c, rest)) n e =
        let alike = reader_of-ReadsAlike k m.contents c rest e in
        inl (c, rest, alike.0 ∙ n, ap (λ r. r m.contents) alike.1 ∙ e, refl)

    -- The kinds of the calls; the options are of no account.
    no_id : DirId
    no_id = record { reg = 0; snap = 0; ino = 0 }

    entry : BaseOptions
    entry = record { dir_id = no_id; session_id = 0; op_due = 0; name_hash = []; name = [] }

    dir : DirOptions
    dir = record { dir_id = no_id; session_id = 0; op_due = 0 }

    new : NewOptions
    new = record { flags = 0; mode = 0; uid = 0; gid = 0 }

    by_op :
        (n : ℕ) (k : Call) (m : Msg) (q : Reply Msg × S)
        → op_of k ≡ n
        → (m.op ≢ n → OneCall m q)
        → OneCall m (if m.op == n then serve w mds (reader_of k m.contents) s else q)
    by_op n k m q e h =
        if_cases (OneCall m) (m.op == n) (serve w mds (reader_of k m.contents) s) q
          (λ b. serve-OneCall k m _ (ground arith) refl) (λ b. h (ground arith))

    no_call :
        (m : Msg)
        → (m.op ≢ 0 → 15 < m.op)
        → OneCall m
            (if m.op == 0 then (reply w 0 [], s) else (reply w (w.err_code not_supported) [], s))
    no_call m h =
        if_cases (OneCall m) (m.op == 0) _ _ (λ b. inr (inr (inl (ground arith, refl))))
          (λ b. inr (inr (inr (h (ground arith), refl))))

    -- Whatever message comes, the server does one of four things. If the reader of the message's
    -- operation finds a call in the contents, it makes that call, of that operation, and answers with
    -- its outcome. If the reader finds none, it answers with an invalid argument. It answers operation
    -- 0 with success and nothing more, and an operation over 15 with "not supported". In these three
    -- cases the state stays.
    pub srv_call-OneCall : (m : Msg) → OneCall m (srv_call w mds m s)
    unfolding srv_call
    srv_call-OneCall m = by_op 10 (lookup entry) m _ refl λ n10.
        by_op 1 (fstat entry) m _ refl λ n1. by_op 2 (fcreat entry new) m _ refl λ n2.
          by_op 8 (trunc entry (record { mtime = 0; size = 0 })) m _ refl λ n8.
            by_op 9 (unlink entry 0) m _ refl λ n9. by_op 3 (mkdir entry new) m _ refl λ n3.
              by_op 4 (chmod entry 0) m _ refl λ n4.
                by_op 5 (chown entry (record { uid = 0; gid = 0 })) m _ refl λ n5.
                  by_op 6 (uperm entry (record { mode = 0; uid = 0; gid = 0 })) m _ refl λ n6.
                    by_op 7 (utime entry (record { atime = 0; mtime = 0 })) m _ refl λ n7.
                      by_op 11 (listdir dir) m _ refl λ n11. by_op 12 (readidx dir) m _ refl λ n12.
                        by_op 13 opensession m _ refl λ n13.
                          by_op 14 getinput m _ refl
                            λ n14. by_op 15 getoutput m _ refl λ n15. no_call m λ n0. omega arith
