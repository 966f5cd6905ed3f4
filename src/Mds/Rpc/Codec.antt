-- ===== src/Mds/Rpc/Codec.antt =====
-- How the calls and their results of src/libdeltafs/mds_api.cc are written and read.
use deltafs.Prelude.{ℕ, [], ◌++◌, Bytes}
use deltafs.Mds.Rpc.Wire.{Wire, Parser, ◌>>=◌, pure, put_dir_id, get_dir_id}
use deltafs.Mds.Rpc.Calls.{
  Call, fstat, lookup, listdir, readidx, fcreat, mkdir, chmod, unlink, chown, uperm, utime, trunc,
  opensession, getinput, getoutput, BaseOptions, DirOptions, NewOptions, PermOptions, OwnerOptions,
  TimeOptions, SizeOptions,
}

-- The numbers of the operations; kNonop is 0.
abbrev pub op_of : Call → ℕ
op_of (fstat b) = 1
op_of (fcreat b o) = 2
op_of (mkdir b o) = 3
op_of (chmod b mode) = 4
op_of (chown b o) = 5
op_of (uperm b o) = 6
op_of (utime b o) = 7
op_of (trunc b o) = 8
op_of (unlink b flags) = 9
op_of (lookup b) = 10
op_of (listdir b) = 11
op_of (readidx b) = 12
op_of opensession = 13
op_of getinput = 14
op_of getoutput = 15

-- A call that has no options of its own.
abbrev pub no_more : Parser (Unit {0})
no_more = pure tt

module _ (w : Wire) where
  -- The options of a call that names an entry: the entry, what is the call's own, the session.
  unfoldable pub put_named : BaseOptions → Bytes → Bytes
  put_named b own =
      put_dir_id w b.dir_id
      ++ (w.put_slice b.name_hash
          ++ (w.put_slice b.name
              ++ (own ++ (w.put_varint32 b.session_id ++ w.put_varint64 b.op_due))))

  unfoldable pub get_named : {A : Type 0} → Parser A → Parser (BaseOptions × A)
  get_named own = get_dir_id w >>= λ dir_id. w.get_slice >>= λ name_hash. w.get_slice >>= λ name.
      own >>= λ a. w.get_varint32 >>= λ session_id. w.get_varint64 >>= λ op_due. pure (
        record {
          dir_id = dir_id;
          session_id = session_id;
          op_due = op_due;
          name_hash = name_hash;
          name = name;
        },
        a,
      )

  unfoldable pub put_dir_options : DirOptions → Bytes
  put_dir_options b =
      put_dir_id w b.dir_id ++ (w.put_varint32 b.session_id ++ w.put_varint64 b.op_due)

  unfoldable pub get_dir_options : Parser DirOptions
  get_dir_options = get_dir_id w >>= λ dir_id. w.get_varint32 >>= λ session_id.
      w.get_varint64 >>= λ op_due.
      pure (record { dir_id = dir_id; session_id = session_id; op_due = op_due })

  -- The options that are a call's own.
  unfoldable pub put_new : NewOptions → Bytes
  put_new o =
      w.put_varint32 o.flags
      ++ (w.put_varint32 o.mode ++ (w.put_varint32 o.uid ++ w.put_varint32 o.gid))

  unfoldable pub get_new : Parser NewOptions
  get_new = w.get_varint32 >>= λ flags. w.get_varint32 >>= λ mode. w.get_varint32 >>= λ uid.
      w.get_varint32 >>= λ gid. pure (record { flags = flags; mode = mode; uid = uid; gid = gid })

  unfoldable pub put_perm : PermOptions → Bytes
  put_perm o = w.put_varint32 o.mode ++ (w.put_varint32 o.uid ++ w.put_varint32 o.gid)

  unfoldable pub get_perm : Parser PermOptions
  get_perm = w.get_varint32 >>= λ mode. w.get_varint32 >>= λ uid.
      w.get_varint32 >>= λ gid. pure (record { mode = mode; uid = uid; gid = gid })

  unfoldable pub put_owner : OwnerOptions → Bytes
  put_owner o = w.put_varint32 o.uid ++ w.put_varint32 o.gid

  unfoldable pub get_owner : Parser OwnerOptions
  get_owner =
      w.get_varint32 >>= λ uid. w.get_varint32 >>= λ gid. pure (record { uid = uid; gid = gid })

  unfoldable pub put_time : TimeOptions → Bytes
  put_time o = w.put_varint64 o.atime ++ w.put_varint64 o.mtime

  unfoldable pub get_time : Parser TimeOptions
  get_time = w.get_varint64 >>= λ atime.
      w.get_varint64 >>= λ mtime. pure (record { atime = atime; mtime = mtime })

  unfoldable pub put_size : SizeOptions → Bytes
  put_size o = w.put_varint64 o.mtime ++ w.put_varint64 o.size

  unfoldable pub get_size : Parser SizeOptions
  get_size = w.get_varint64 >>= λ mtime.
      w.get_varint64 >>= λ size. pure (record { mtime = mtime; size = size })

  -- The contents of the message for each call.
  abbrev pub put_fstat : BaseOptions → Bytes
  put_fstat b = put_named b []

  abbrev pub put_lookup : BaseOptions → Bytes
  put_lookup b = put_named b []

  abbrev pub put_fcreat : BaseOptions → NewOptions → Bytes
  put_fcreat b o = put_named b (put_new o)

  abbrev pub put_mkdir : BaseOptions → NewOptions → Bytes
  put_mkdir b o = put_named b (put_new o)

  abbrev pub put_chmod : BaseOptions → ℕ → Bytes
  put_chmod b mode = put_named b (w.put_varint32 mode)

  abbrev pub put_unlink : BaseOptions → ℕ → Bytes
  put_unlink b flags = put_named b (w.put_varint32 flags)

  abbrev pub put_chown : BaseOptions → OwnerOptions → Bytes
  put_chown b o = put_named b (put_owner o)

  abbrev pub put_uperm : BaseOptions → PermOptions → Bytes
  put_uperm b o = put_named b (put_perm o)

  abbrev pub put_utime : BaseOptions → TimeOptions → Bytes
  put_utime b o = put_named b (put_time o)

  abbrev pub put_trunc : BaseOptions → SizeOptions → Bytes
  put_trunc b o = put_named b (put_size o)

  abbrev pub put_listdir : DirOptions → Bytes
  put_listdir b = put_dir_options b

  abbrev pub put_readidx : DirOptions → Bytes
  put_readidx b = put_dir_options b

  unfoldable pub put_call : Call → Bytes
  put_call (fstat b) = put_fstat b
  put_call (lookup b) = put_lookup b
  put_call (listdir b) = put_listdir b
  put_call (readidx b) = put_readidx b
  put_call (fcreat b o) = put_fcreat b o
  put_call (mkdir b o) = put_mkdir b o
  put_call (chmod b mode) = put_chmod b mode
  put_call (unlink b flags) = put_unlink b flags
  put_call (chown b o) = put_chown b o
  put_call (uperm b o) = put_uperm b o
  put_call (utime b o) = put_utime b o
  put_call (trunc b o) = put_trunc b o
  put_call opensession = []
  put_call getinput = []
  put_call getoutput = []

  abbrev pub named : {A : Type 0} → (BaseOptions → A → Call) → Parser A → Parser Call
  named call own = get_named own >>= λ (b, a). pure (call b a)

  -- What a handler of `MDS::RPC::SRV` reads, by the number of its operation.
  unfoldable pub get_fstat : Parser Call
  get_fstat = named (λ b _. fstat b) no_more

  unfoldable pub get_fcret : Parser Call
  get_fcret = named fcreat get_new

  unfoldable pub get_mkdir : Parser Call
  get_mkdir = named mkdir get_new

  unfoldable pub get_chmod : Parser Call
  get_chmod = named chmod w.get_varint32

  unfoldable pub get_chown : Parser Call
  get_chown = named chown get_owner

  unfoldable pub get_uperm : Parser Call
  get_uperm = named uperm get_perm

  unfoldable pub get_utime : Parser Call
  get_utime = named utime get_time

  unfoldable pub get_trunc : Parser Call
  get_trunc = named trunc get_size

  unfoldable pub get_unlnk : Parser Call
  get_unlnk = named unlink w.get_varint32

  unfoldable pub get_lokup : Parser Call
  get_lokup = named (λ b _. lookup b) no_more

  unfoldable pub get_lsdir : Parser Call
  get_lsdir = get_dir_options >>= λ b. pure (listdir b)

  unfoldable pub get_rdidx : Parser Call
  get_rdidx = get_dir_options >>= λ b. pure (readidx b)
