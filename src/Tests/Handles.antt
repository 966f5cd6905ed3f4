-- ===== src/Tests/Handles.antt =====
-- The handles of plfsio on a wire on which a number is one symbol.
use deltafs.Prelude.{ℕ, refl, [], ◌∷◌, Option, some, none, Bytes, arith}
use deltafs.Mds.Rpc.Wire.{Reads}
use deltafs.Plfsio.Handles.{
  TableHandle, EpochHandle, EpochStone, Blocks, put_epoch_handle, get_epoch_handle,
  epoch_handle-Reads, put_table_handle, get_table_handle, put_epoch_stone, get_epoch_stone,
  table_handle-Reads, epoch_stone-Reads,
}
use deltafs.Tests.Wire.{symbols, symbols-IsWire}

abbrev table : TableHandle
table = record {
  smallest_key = 1 ∷ [];
  largest_key = 9 ∷ 9 ∷ [];
  filter_offset = 0;
  filter_size = 64;
  index_offset = 64;
  index_size = 128;
}

table_handle-Reads_example : Reads (get_table_handle symbols) table (put_table_handle symbols table)
table_handle-Reads_example = table_handle-Reads symbols symbols-IsWire table (omega arith)

abbrev epoch : EpochHandle
epoch = record { index_offset = 192; index_size = 32; num_tables = 1; num_ents = 2 }

epoch_handle-Reads_example : Reads (get_epoch_handle symbols) epoch (put_epoch_handle symbols epoch)
epoch_handle-Reads_example = epoch_handle-Reads symbols symbols-IsWire epoch (omega arith)

abbrev get_pair : Bytes → Option ((ℕ × ℕ) × Bytes)
get_pair (a ∷ b ∷ rest) = some ((a, b), rest)
get_pair _ = none

-- A block handle is two symbols.
abbrev blocks : Blocks
blocks = record { BlockHandle = ℕ × ℕ; put_block = λ h. h.0 ∷ h.1 ∷ []; get_block = get_pair }

abbrev seal : EpochStone blocks
seal = record { handle = (192, 32); id = 3 }

epoch_stone-Reads_example :
    Reads (get_epoch_stone symbols blocks) seal (put_epoch_stone symbols blocks seal)
epoch_stone-Reads_example =
    epoch_stone-Reads symbols symbols-IsWire blocks seal (λ h rest. refl) (omega arith)
