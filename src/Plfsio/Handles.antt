-- ===== src/Plfsio/Handles.antt =====
-- The handles of tables and epochs of src/libdeltafs/plfsio/v1/format.cc, over the codings of
-- pdlfs-common, and their round trips.
use deltafs.Prelude.{ℕ, ◌<◌, ◌++◌, Bytes, length}
use deltafs.Mds.Types.{u32_mod, u64_mod}
use deltafs.Mds.Rpc.Wire.{Wire, IsWire, Parser, ◌>>=◌, pure, Reads, Reads-bind, Reads-last}

pub record TableHandle : Type 0 where
  pub smallest_key : Bytes
  pub largest_key : Bytes
  pub filter_offset : ℕ
  pub filter_size : ℕ
  pub index_offset : ℕ
  pub index_size : ℕ

pub record EpochHandle : Type 0 where
  pub index_offset : ℕ
  pub index_size : ℕ
  pub num_tables : ℕ
  pub num_ents : ℕ

-- BlockHandle of pdlfs-common with its EncodeTo and DecodeFrom.
pub record Blocks : Type 1 where
  pub BlockHandle : Type 0
  pub put_block : BlockHandle → Bytes
  pub get_block : Parser BlockHandle

-- What is relied on: a block handle is read back, whatever follows it.
abbrev pub IsBlocks : Blocks → Type 0
IsBlocks k = (h : k.BlockHandle) → Reads k.get_block h (k.put_block h)

pub record EpochStone (k : Blocks) : Type 0 where
  pub handle : k.BlockHandle
  pub id : ℕ

-- The ranges of the fields, by their types.
abbrev pub IsTableHandle : TableHandle → Type 0
IsTableHandle h =
    (length h.smallest_key < u32_mod)
    × (length h.largest_key < u32_mod)
    × (h.filter_offset < u64_mod)
    × (h.filter_size < u64_mod)
    × (h.index_offset < u64_mod)
    × (h.index_size < u64_mod)

abbrev pub IsEpochHandle : EpochHandle → Type 0
IsEpochHandle h =
    (h.index_offset < u64_mod)
    × (h.index_size < u64_mod)
    × (h.num_tables < u32_mod)
    × (h.num_ents < u32_mod)

module _ (w : Wire) where
  unfoldable pub put_table_handle : TableHandle → Bytes
  put_table_handle h =
      w.put_slice h.smallest_key
      ++ (w.put_slice h.largest_key
          ++ (w.put_varint64 h.filter_offset
              ++ (w.put_varint64 h.filter_size
                  ++ (w.put_varint64 h.index_offset ++ w.put_varint64 h.index_size))))

  unfoldable pub get_table_handle : Parser TableHandle
  get_table_handle = w.get_slice >>= λ smallest. w.get_slice >>= λ largest.
      w.get_varint64 >>= λ filter_offset. w.get_varint64 >>= λ filter_size.
      w.get_varint64 >>= λ index_offset. w.get_varint64 >>= λ index_size. pure (record {
        smallest_key = smallest;
        largest_key = largest;
        filter_offset = filter_offset;
        filter_size = filter_size;
        index_offset = index_offset;
        index_size = index_size;
      })

  unfoldable pub put_epoch_handle : EpochHandle → Bytes
  put_epoch_handle h =
      w.put_varint64 h.index_offset
      ++ (w.put_varint64 h.index_size ++ (w.put_varint32 h.num_tables ++ w.put_varint32 h.num_ents))

  unfoldable pub get_epoch_handle : Parser EpochHandle
  get_epoch_handle = w.get_varint64 >>= λ index_offset. w.get_varint64 >>= λ index_size.
      w.get_varint32 >>= λ num_tables. w.get_varint32 >>= λ num_ents. pure (record {
        index_offset = index_offset;
        index_size = index_size;
        num_tables = num_tables;
        num_ents = num_ents;
      })

  module _ (k : Blocks) where
    unfoldable pub put_epoch_stone : EpochStone k → Bytes
    put_epoch_stone s = k.put_block s.handle ++ w.put_varint32 s.id

    unfoldable pub get_epoch_stone : Parser (EpochStone k)
    get_epoch_stone = k.get_block >>= λ handle.
        w.get_varint32 >>= λ id. pure (record { handle = handle; id = id })

  module _ (l : IsWire w) where
    -- A table handle that is written is read back, whatever follows it, if its fields are in the
    -- ranges of their types.
    pub table_handle-Reads :
        (h : TableHandle) → IsTableHandle h → Reads get_table_handle h (put_table_handle h)
    unfolding get_table_handle put_table_handle
    table_handle-Reads h p =
        Reads-bind w.get_slice _ h.smallest_key h _ _ (l.slice h.smallest_key p.0) (
          Reads-bind w.get_slice _ h.largest_key h _ _ (l.slice h.largest_key p.1) (
            Reads-bind w.get_varint64 _ h.filter_offset h _ _ (l.varint64 h.filter_offset p.2) (
              Reads-bind w.get_varint64 _ h.filter_size h _ _ (l.varint64 h.filter_size p.3) (
                Reads-bind w.get_varint64 _ h.index_offset h _ _ (l.varint64 h.index_offset p.4) (
                  Reads-last w.get_varint64 (λ size. record h { index_size = size }) h.index_size _
                    (l.varint64 h.index_size p.5))))))

    -- An epoch handle that is written is read back, whatever follows it, if its fields are in the
    -- ranges of their types.
    pub epoch_handle-Reads :
        (h : EpochHandle) → IsEpochHandle h → Reads get_epoch_handle h (put_epoch_handle h)
    unfolding get_epoch_handle put_epoch_handle
    epoch_handle-Reads h p =
        Reads-bind w.get_varint64 _ h.index_offset h _ _ (l.varint64 h.index_offset p.0) (
          Reads-bind w.get_varint64 _ h.index_size h _ _ (l.varint64 h.index_size p.1) (
            Reads-bind w.get_varint32 _ h.num_tables h _ _ (l.varint32 h.num_tables p.2) (
              Reads-last w.get_varint32 (λ n. record h { num_ents = n }) h.num_ents _
                (l.varint32 h.num_ents p.3))))

    -- The seal of an epoch, which is a block handle and a number, is read back as it was written,
    -- whatever follows it, if the number is a uint32_t.
    pub epoch_stone-Reads :
        (k : Blocks) (s : EpochStone k)
        → IsBlocks k
        → s.id < u32_mod
        → Reads (get_epoch_stone k) s (put_epoch_stone k s)
    unfolding get_epoch_stone put_epoch_stone
    epoch_stone-Reads k s blocks lt =
        Reads-bind k.get_block _ s.handle s _ _ (blocks s.handle)
          (Reads-last w.get_varint32 (λ id. record s { id = id }) s.id _ (l.varint32 s.id lt))
