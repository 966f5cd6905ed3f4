-- ===== src/Mds/Laws.antt =====
-- What the metadata service relies on of the key-value store and of the codings: a write that
-- succeeds applies its batch in order and changes nothing else, and a varint is read back.
use deltafs.Prelude.{
  ℕ, ◌<◌, ◌≡◌, Bool, false, ◌&&◌, List, [], ◌∷◌, ◌++◌, some, Bytes, bytes_eq, if◌then◌else◌,
}
use deltafs.Mds.Types.{
  Ext, Result, ok, err, not_found, DirId, dir_id_eq, Stat, RawKey, dir_idx, dir_meta, Update,
  put_node, del_node, put_raw, del_raw, u32_mod, u64_mod,
}

abbrev pub node_key_eq : DirId → Bytes → DirId → Bytes → Bool
node_key_eq d h e i = dir_id_eq d e && bytes_eq h i

abbrev pub raw_key_eq : RawKey → RawKey → Bool
raw_key_eq (dir_idx d) (dir_idx e) = dir_id_eq d e
raw_key_eq (dir_meta d) (dir_meta e) = dir_id_eq d e
raw_key_eq (dir_idx d) (dir_meta e) = false
raw_key_eq (dir_meta d) (dir_idx e) = false

-- What a read of an entry gives after a batch.
abbrev pub node_after : List Update → DirId → Bytes → Result (Stat × Bytes) → Result (Stat × Bytes)
node_after [] d h r = r
node_after (put_node e i stat name ∷ us) d h r =
    node_after us d h (if node_key_eq e i d h then ok (stat, name) else r)
node_after (del_node e i ∷ us) d h r =
    node_after us d h (if node_key_eq e i d h then err not_found else r)
node_after (put_raw k v ∷ us) d h r = node_after us d h r
node_after (del_raw k ∷ us) d h r = node_after us d h r

-- What a read of another record gives after a batch.
abbrev pub raw_after : List Update → RawKey → Result Bytes → Result Bytes
raw_after [] k r = r
raw_after (put_node e i stat name ∷ us) k r = raw_after us k r
raw_after (del_node e i ∷ us) k r = raw_after us k r
raw_after (put_raw j v ∷ us) k r = raw_after us k (if raw_key_eq j k then ok v else r)
raw_after (del_raw j ∷ us) k r = raw_after us k (if raw_key_eq j k then err not_found else r)

pub record IsStore (x : Ext) : Type 0 where
  pub node_written :
      (s s' : x.Store) (us : List Update) (d : DirId) (h : Bytes)
      → x.write s us ≡ (ok tt, s')
      → x.read_node s' d h ≡ node_after us d h (x.read_node s d h)
  pub raw_written :
      (s s' : x.Store) (us : List Update) (k : RawKey)
      → x.write s us ≡ (ok tt, s')
      → x.read_raw s' k ≡ raw_after us k (x.read_raw s k)

pub record IsCoding (x : Ext) : Type 0 where
  pub varint64 :
      (n : ℕ) (rest : Bytes)
      → n < u64_mod
      → x.get_varint64 (x.put_varint64 n ++ rest) ≡ some (n, rest)
  pub varint32 : (n : ℕ) → n < u32_mod → x.get_varint32 (x.put_varint32 n) ≡ some (n, [])
