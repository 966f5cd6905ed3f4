-- ===== src/Mds/Db.antt =====
-- src/libdeltafs/util/mdb.cc, util/mdb.h and `DirInfo` of util/dcntl.cc: typed access to the
-- key-value store. A session is the store with the transaction in use, if there is one.
use deltafs.Prelude.{ℕ, Bool, true, false, List, [], ◌∷◌, ◌++◌, Option, none, some, Bytes}
use deltafs.Mds.Types.{
  Ext, Result, ok, err, not_found, corruption, DirId, Stat, DirInfo, dir_idx, dir_meta, Update,
  put_node, del_node, put_raw, del_raw,
}

pub record Tx (x : Ext) : Type 0 where
  pub snap : x.Store
  pub bat : List Update

pub record Session (x : Ext) : Type 0 where
  pub store : x.Store
  pub tx : Option (Tx x)

abbrev pub Db : Ext → Type 0 → Type 0
Db x A = Session x → Result A × Session x

abbrev pub bind : {S A B : Type 0} → Result A × S → (A → S → Result B × S) → Result B × S
bind (ok a, s) f = f a s
bind (err e, s) f = (err e, s)

infixl 5 ◌>>=◌ ◌>>◌
abbrev pub ◌>>=◌ : {x : Ext} {A B : Type 0} → Db x A → (A → Db x B) → Db x B
◌>>=◌ m f s = bind (m s) f

abbrev pub ◌>>◌ : {x : Ext} {B : Type 0} → Db x (Unit {0}) → Db x B → Db x B
◌>>◌ m k = m >>= λ _. k

-- A step that touches neither the store nor the transaction.
abbrev pub lift : {x : Ext} {A : Type 0} → Result A → Db x A
lift r s = (r, s)

-- `if (s.IsNotFound()) …` after a read.
abbrev pub or_missing : {S A : Type 0} → Result A × S → (S → Result A × S) → Result A × S
or_missing (ok a, s) k = (ok a, s)
or_missing (err not_found, s) k = k s
or_missing (err e, s) k = (err e, s)

-- `Get` of a decoded value.
abbrev pub decoded : {A : Type 0} → Option A → Result A
decoded none = err corruption
decoded (some a) = ok a

abbrev pub decode_size : ℕ → Option (ℕ × Bytes) → Option DirInfo
decode_size mtime none = none
decode_size mtime (some (size, rest)) = some (record { mtime = mtime; size = size })

abbrev is_ok : {A : Type 0} → Result A → Bool
is_ok (ok a) = true
is_ok (err e) = false

module _ (x : Ext) where
  -- A read goes to the transaction's snapshot.
  abbrev pub view : Session x → x.Store
  view s = elim s.tx [ none ↦ s.store | some t ↦ t.snap ]

  -- A write goes into the transaction's batch, or straight to the store.
  abbrev pub apply : Update → Option (Tx x) → x.Store → Result (Unit {0}) × Session x
  apply u (some t) st =
      (ok tt, record { store = st; tx = some (record t { bat = t.bat ++ u ∷ [] }) })
  apply u none st = let (r, st') = x.write st (u ∷ []) in (r, record { store = st'; tx = none })

  unfoldable pub create_tx : Db x (Unit {0})
  create_tx s = (ok tt, record s { tx = some (record { snap = s.store; bat = [] }) })

  unfoldable pub get_node : DirId → Bytes → Db x (Stat × Bytes)
  get_node id hash s = (x.read_node (view s) id hash, s)

  unfoldable pub set_node : DirId → Bytes → Stat → Bytes → Db x (Unit {0})
  set_node id hash stat name s = apply (put_node id hash stat name) s.tx s.store

  unfoldable pub del_node_of : DirId → Bytes → Db x (Unit {0})
  del_node_of id hash s = apply (del_node id hash) s.tx s.store

  -- DirInfo::EncodeTo and DirInfo::DecodeFrom.
  unfoldable pub encode_info : DirInfo → Bytes
  encode_info i = x.put_varint64 i.mtime ++ x.put_varint32 i.size

  abbrev pub decode_mtime : Option (ℕ × Bytes) → Option DirInfo
  decode_mtime none = none
  decode_mtime (some (mtime, rest)) = decode_size mtime (x.get_varint32 rest)

  unfoldable pub decode_info : Bytes → Option DirInfo
  decode_info input = decode_mtime (x.get_varint64 input)

  unfoldable pub get_info : DirId → Db x DirInfo
  get_info id s = elim (x.read_raw (view s) (dir_meta id)) [
    | ok bytes ↦ (decoded (decode_info bytes), s)
    | err e ↦ (err e, s)
  ]

  unfoldable pub set_info : DirId → DirInfo → Db x (Unit {0})
  set_info id info s = apply (put_raw (dir_meta id) (encode_info info)) s.tx s.store

  unfoldable pub del_info : DirId → Db x (Unit {0})
  del_info id s = apply (del_raw (dir_meta id)) s.tx s.store

  unfoldable pub get_dir_idx : DirId → x.Index → Db x x.Index
  get_dir_idx id idx s = elim (x.read_raw (view s) (dir_idx id)) [
    | ok bytes ↦ (decoded (x.update_index idx bytes), s)
    | err e ↦ (err e, s)
  ]

  unfoldable pub set_dir_idx : DirId → x.Index → Db x (Unit {0})
  set_dir_idx id idx s = apply (put_raw (dir_idx id) (x.encode_index idx)) s.tx s.store

  unfoldable pub del_dir_idx : DirId → Db x (Unit {0})
  del_dir_idx id s = apply (del_raw (dir_idx id)) s.tx s.store

  -- COMMIT writes the batch of the transaction; without one it does nothing.
  abbrev pub commit_tx : Option (Tx x) → x.Store → Result (Unit {0}) × Session x
  commit_tx none st = (ok tt, record { store = st; tx = none })
  commit_tx (some t) st =
      let (r, st') = x.write st t.bat in (r, record { store = st'; tx = some t })

  unfoldable pub commit : Db x (Unit {0})
  commit s = commit_tx s.tx s.store

  unfoldable pub list : DirId → ℕ → Session x → List Bytes
  list id limit s = x.list_names (view s) id limit

  unfoldable pub exists : DirId → Bytes → Session x → Bool
  exists id hash s = is_ok (x.read_node (view s) id hash)
