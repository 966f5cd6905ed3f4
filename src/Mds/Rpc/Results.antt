-- ===== src/Mds/Rpc/Results.antt =====
-- How the results of the calls of src/libdeltafs/mds_api.cc are written and read.
use deltafs.Prelude.{
  ℕ, zero, suc, ◌+◌, ◌-◌, ◌%◌, ltb, leb, List, [], ◌∷◌, ◌++◌, Option, none, some, Bytes, length,
  take, drop, if◌then◌else◌,
}
use deltafs.Mds.Types.{Stat, u32_mod}
use deltafs.Mds.Rpc.Wire.{Wire, Parser, ◌>>=◌, pure}
use deltafs.Mds.Rpc.Calls.{
  Call, fstat, lookup, listdir, readidx, fcreat, mkdir, chmod, unlink, chown, uperm, utime, trunc,
  opensession, getinput, getoutput, Ret, Created, Session,
}

module _ (w : Wire) where
  -- The loop of LSDIR. It ends when the names take 1000 bytes.
  unfoldable pub write_names : List Bytes → Bytes → ℕ → Bytes × ℕ
  write_names [] buf num = (buf, num)
  write_names (name ∷ names) buf num =
      let rest = write_names names (buf ++ w.put_slice name) (num + 1) in
      if leb 1000 (length (buf ++ w.put_slice name))
      then (buf ++ w.put_slice name, num + 1)
      else rest

  unfoldable pub put_names : List Bytes → Bytes
  put_names names = let (buf, num) = write_names names [] 0 in buf ++ w.put_fixed32 (num % u32_mod)

  abbrev pub cons_to : Bytes → Option (List Bytes) → Option (List Bytes)
  cons_to name none = none
  cons_to name (some names) = some (name ∷ names)

  abbrev pub and_then : Option (Bytes × Bytes) → (Bytes → Option (List Bytes)) → Option (List Bytes)
  and_then none f = none
  and_then (some (name, rest)) f = cons_to name (f rest)

  -- The loop of Listdir on the client.
  unfoldable pub read_names : ℕ → Bytes → Option (List Bytes)
  read_names zero input = some []
  read_names (suc num) input = and_then (w.get_slice input) λ rest. read_names num rest

  unfoldable pub get_names : Bytes → Option (List Bytes)
  get_names encoding =
      if ltb (length encoding) 4
      then none
      else read_names (w.decode_fixed32 (drop (length encoding - 4) encoding))
          (take (length encoding - 4) encoding)

  unfoldable pub put_created : Created → Bytes
  put_created r = w.put_stat r.stat ++ r.created ∷ []

  abbrev pub with_flag : Stat → Bytes → Option Created
  with_flag stat [] = none
  with_flag stat (created ∷ rest) = some (record { stat = stat; created = created })

  abbrev pub get_flag : Option (Stat × Bytes) → Option Created
  get_flag none = none
  get_flag (some (stat, contents)) = with_flag stat contents

  unfoldable pub put_session : Session → Bytes
  put_session r =
      w.put_slice r.env_name
      ++ (w.put_slice r.env_conf
          ++ (w.put_slice r.fio_name ++ (w.put_slice r.fio_conf ++ w.put_varint32 r.session_id)))

  unfoldable pub get_session : Parser Session
  get_session = w.get_slice >>= λ env_name. w.get_slice >>= λ env_conf. w.get_slice >>= λ fio_name.
      w.get_slice >>= λ fio_conf. w.get_varint32 >>= λ id. pure (record {
        env_name = env_name;
        env_conf = env_conf;
        fio_name = fio_name;
        fio_conf = fio_conf;
        session_id = id;
      })

  -- What is left of the message is of no matter.
  abbrev pub value : {A : Type 0} → Option (A × Bytes) → Option A
  value none = none
  value (some (a, rest)) = some a

  unfoldable pub put_ret : (c : Call) → Ret c → Bytes
  put_ret (fstat b) r = w.put_stat r
  put_ret (lookup b) r = w.put_lookup_stat r
  put_ret (listdir b) r = put_names r
  put_ret (readidx b) r = r
  put_ret (fcreat b o) r = put_created r
  put_ret (mkdir b o) r = w.put_stat r
  put_ret (chmod b mode) r = w.put_stat r
  put_ret (unlink b flags) r = w.put_stat r
  put_ret (chown b o) r = w.put_stat r
  put_ret (uperm b o) r = w.put_stat r
  put_ret (utime b o) r = w.put_stat r
  put_ret (trunc b o) r = w.put_stat r
  put_ret opensession r = put_session r
  put_ret getinput r = w.put_slice r
  put_ret getoutput r = w.put_slice r

  unfoldable pub get_ret : (c : Call) → Bytes → Option (Ret c)
  get_ret (fstat b) m = value (w.get_stat m)
  get_ret (lookup b) m = value (w.get_lookup_stat m)
  get_ret (listdir b) m = get_names m
  get_ret (readidx b) m = some m
  get_ret (fcreat b o) m = get_flag (w.get_stat m)
  get_ret (mkdir b o) m = value (w.get_stat m)
  get_ret (chmod b mode) m = value (w.get_stat m)
  get_ret (unlink b flags) m = value (w.get_stat m)
  get_ret (chown b o) m = value (w.get_stat m)
  get_ret (uperm b o) m = value (w.get_stat m)
  get_ret (utime b o) m = value (w.get_stat m)
  get_ret (trunc b o) m = value (w.get_stat m)
  get_ret opensession m = value (get_session m)
  get_ret getinput m = value (w.get_slice m)
  get_ret getoutput m = value (w.get_slice m)
