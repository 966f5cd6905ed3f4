-- ===== src/Mds/Types.antt =====
-- The values that the metadata service works with: src/libdeltafs/mds_api.h, util/dcntl.h, and
-- what it takes from pdlfs-common (the key-value store, the GIGA+ index, the codings) as a record.
use deltafs.Prelude.{
  ℕ, ◌+◌, ◌*◌, ◌/◌, ◌%◌, ◌^◌, Bool, true, ◌&&◌, List, Option, Bytes, ◌==◌, ◌≡◌, arith,
}

-- The codes of `Status` that the service and its client make or tell apart; `Result` has `OK` as `ok`.
pub data Error : Type 0 where
  not_found already_exists corruption not_supported invalid_argument : Error
  io_error buffer_full file_expected dir_expected : Error
  access_denied try_again invalid_file_descriptor : Error

pub data Result {ℓ} (A : Type ℓ) : Type ℓ where
  ok : A → Result A
  err : Error → Result A

pub record DirId : Type 0 where
  pub reg : ℕ
  pub snap : ℕ
  pub ino : ℕ

unfoldable pub dir_id_eq : DirId → DirId → Bool
dir_id_eq a b = (a.reg == b.reg) && (a.snap == b.snap) && (a.ino == b.ino)

pub dir_id_eq_sound : (a b : DirId) → dir_id_eq a b ≡ true → a ≡ b
unfolding dir_id_eq
dir_id_eq_sound a b h = ground arith

pub dir_id_eq_refl : (a : DirId) → dir_id_eq a a ≡ true
unfolding dir_id_eq
dir_id_eq_refl a = ground arith

pub record Stat : Type 0 where
  pub reg_id : ℕ
  pub snap_id : ℕ
  pub inode_no : ℕ
  pub file_size : ℕ
  pub file_mode : ℕ
  pub zeroth_server : ℕ
  pub user_id : ℕ
  pub group_id : ℕ
  pub modify_time : ℕ
  pub change_time : ℕ

-- `size` is an `int`; the number is its 32-bit pattern.
pub record DirInfo : Type 0 where
  pub mtime : ℕ
  pub size : ℕ

abbrev pub u32_mod : ℕ
u32_mod = 2 ^ 32

abbrev pub u64_mod : ℕ
u64_mod = 2 ^ 64

-- Mode bits: the file type stands in bits 12 to 15, the permissions (ACCESSPERMS) in bits 0 to 8,
-- and DELTAFS_DIR_MASK is bits 16 to 19. The fields are disjoint, so `|` is `+`.
abbrev pub file_type : ℕ → ℕ
file_type m = m / 2 ^ 12 % 2 ^ 4

abbrev pub access_perms : ℕ → ℕ
access_perms m = m % 2 ^ 9

abbrev pub is_reg : ℕ → Bool
is_reg m = file_type m == 8

abbrev pub is_dir : ℕ → Bool
is_dir m = file_type m == 4

abbrev pub reg_mode : ℕ → ℕ
reg_mode m = 8 * 2 ^ 12 + access_perms m

abbrev pub dir_mode : ℕ → ℕ
dir_mode m = 4 * 2 ^ 12 + access_perms m + m / 2 ^ 16 % 2 ^ 4 * 2 ^ 16

-- (flags & O_EXCL) == O_EXCL, with O_EXCL = 0200.
abbrev pub is_excl : ℕ → Bool
is_excl flags = flags / 2 ^ 7 % 2 == 1

-- Keys of the directory table other than entries: MDB's `kDirIdxType` and `kDirMetaType`.
pub data RawKey : Type 0 where
  dir_idx dir_meta : DirId → RawKey

-- One record of a WriteBatch. Entry records are what MXDB's PUT and DELETE add to a batch.
pub data Update : Type 0 where
  put_node : DirId → Bytes → Stat → Bytes → Update
  del_node : DirId → Bytes → Update
  put_raw : RawKey → Bytes → Update
  del_raw : RawKey → Update

-- What the service takes from pdlfs-common.
pub record Ext : Type 1 where
  -- The key-value store: its contents, MXDB's GET, the store's Get and Write, MXDB's LIST.
  pub Store : Type 0
  pub read_node : Store → DirId → Bytes → Result (Stat × Bytes)
  pub read_raw : Store → RawKey → Result Bytes
  pub write : Store → List Update → Result (Unit {0}) × Store
  pub list_names : Store → DirId → ℕ → List Bytes
  -- Varints.
  pub put_varint64 : ℕ → Bytes
  pub put_varint32 : ℕ → Bytes
  pub get_varint64 : Bytes → Option (ℕ × Bytes)
  pub get_varint32 : Bytes → Option (ℕ × Bytes)
  -- DirIndex: PutHash, RandomServer, `SetAll` on a new index, HashToServer, Encode, Update.
  pub Index : Type 0
  pub name_hash : Bytes → Bytes
  pub random_server : Bytes → ℕ
  pub split_index : ℕ → Index
  pub new_index : Index
  pub hash_to_server : Index → Bytes → ℕ
  pub encode_index : Index → Bytes
  pub update_index : Index → Bytes → Option Index
