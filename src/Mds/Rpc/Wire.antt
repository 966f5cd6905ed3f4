-- ===== src/Mds/Rpc/Wire.antt =====
-- What the messages of src/libdeltafs/mds_api.cc are made of. The codings and the stub are those of
-- pdlfs-common, a parameter; here are the parsers over them, as the chains of `Get…` calls are.
use deltafs.Prelude.{ℕ, ◌-◌, ◌<◌, ◌≡◌, ◌++◌, Option, none, some, Bytes, length}
use mathlib.Core.List.{append_assoc}
use deltafs.Mds.Types.{Error, Stat, DirId, u32_mod, u64_mod}

-- LookupStat of pdlfs-common.
pub record LookupStat : Type 0 where
  pub reg_id : ℕ
  pub snap_id : ℕ
  pub inode_no : ℕ
  pub zeroth_server : ℕ
  pub dir_mode : ℕ
  pub user_id : ℕ
  pub group_id : ℕ
  pub lease_due : ℕ

-- The codings, and the numbers of the errors. A decoder gives the value and the rest of the input.
pub record Wire : Type 0 where
  pub put_varint64 : ℕ → Bytes
  pub get_varint64 : Bytes → Option (ℕ × Bytes)
  pub put_varint32 : ℕ → Bytes
  pub get_varint32 : Bytes → Option (ℕ × Bytes)
  pub put_slice : Bytes → Bytes
  pub get_slice : Bytes → Option (Bytes × Bytes)
  pub put_fixed32 : ℕ → Bytes
  pub decode_fixed32 : Bytes → ℕ
  pub put_stat : Stat → Bytes
  pub get_stat : Bytes → Option (Stat × Bytes)
  pub put_lookup_stat : LookupStat → Bytes
  pub get_lookup_stat : Bytes → Option (LookupStat × Bytes)
  -- Status::err_code and Status::FromCode.
  pub err_code : Error → ℕ
  pub from_code : ℕ → Error
  -- sizeof of a message's buffer.
  pub buf_size : ℕ

abbrev pub Parser : Type 0 → Type 0
Parser A = Bytes → Option (A × Bytes)

abbrev pub bind : {A B : Type 0} → Option (A × Bytes) → (A → Parser B) → Option (B × Bytes)
bind none f = none
bind (some (a, rest)) f = f a rest

infixl 5 ◌>>=◌
abbrev pub ◌>>=◌ : {A B : Type 0} → Parser A → (A → Parser B) → Parser B
◌>>=◌ p f input = bind (p input) f

abbrev pub pure : {A : Type 0} → A → Parser A
pure a input = some (a, input)

-- The bytes are read as the value, whatever follows them.
abbrev pub Reads : {A : Type 0} → Parser A → A → Bytes → Type 0
Reads p a bytes = (rest : Bytes) → p (bytes ++ rest) ≡ some (a, rest)

pub Reads-bind :
    {A B : Type 0} (p : Parser A) (f : A → Parser B) (a : A) (b : B) (xs ys : Bytes)
    → Reads p a xs
    → Reads (f a) b ys
    → Reads (p >>= f) b (xs ++ ys)
Reads-bind p f a b xs ys h k rest = rw (append_assoc xs ys rest, h (ys ++ rest)) (k rest)

-- The last step of a chain.
pub Reads-last :
    {A B : Type 0} (p : Parser A) (f : A → B) (a : A) (xs : Bytes)
    → Reads p a xs
    → Reads (p >>= λ v. pure (f v)) (f a) xs
Reads-last p f a xs h rest = rw (h rest)

-- The ranges of the fields.
abbrev pub IsStat : Stat → Type 0
IsStat s =
    (s.reg_id < u64_mod)
    × (s.snap_id < u64_mod)
    × (s.inode_no < u64_mod)
    × (s.file_size < u64_mod)
    × (s.file_mode < u32_mod)
    × (s.zeroth_server < u32_mod)
    × (s.user_id < u32_mod)
    × (s.group_id < u32_mod)
    × (s.modify_time < u64_mod)
    × (s.change_time < u64_mod)

abbrev pub IsLookupStat : LookupStat → Type 0
IsLookupStat s =
    (s.reg_id < u64_mod)
    × (s.snap_id < u64_mod)
    × (s.inode_no < u64_mod)
    × (s.zeroth_server < u32_mod)
    × (s.dir_mode < u32_mod)
    × (s.user_id < u32_mod)
    × (s.group_id < u32_mod)
    × (s.lease_due < u64_mod)

-- What is relied on: each coding is read back, and an error has its own number, which is none of
-- those that a message has for success (0) and for a redirection.
pub record IsWire (w : Wire) : Type 0 where
  pub varint64 : (n : ℕ) → n < u64_mod → Reads w.get_varint64 n (w.put_varint64 n)
  pub varint32 : (n : ℕ) → n < u32_mod → Reads w.get_varint32 n (w.put_varint32 n)
  pub slice : (s : Bytes) → length s < u32_mod → Reads w.get_slice s (w.put_slice s)
  pub fixed32 : (n : ℕ) → n < u32_mod → w.decode_fixed32 (w.put_fixed32 n) ≡ n
  pub length-fixed32 : (n : ℕ) → length (w.put_fixed32 n) ≡ 4
  pub stat : (s : Stat) → IsStat s → Reads w.get_stat s (w.put_stat s)
  pub lookup_stat :
      (s : LookupStat) → IsLookupStat s → Reads w.get_lookup_stat s (w.put_lookup_stat s)
  pub code : (e : Error) → w.from_code (w.err_code e) ≡ e
  pub code_pos : (e : Error) → 0 < w.err_code e
  pub code_small : (e : Error) → w.err_code e < u32_mod - 1

-- An identifier's numbers are uint64_t.
abbrev pub IsDirId : DirId → Type 0
IsDirId id = (id.reg < u64_mod) × (id.snap < u64_mod) × (id.ino < u64_mod)

module _ (w : Wire) where
  -- PutDirId and EncodeDirId.
  unfoldable pub put_dir_id : DirId → Bytes
  put_dir_id id = w.put_varint64 id.reg ++ (w.put_varint64 id.snap ++ w.put_varint64 id.ino)

  unfoldable pub get_dir_id : Parser DirId
  get_dir_id = w.get_varint64 >>= λ reg. w.get_varint64 >>= λ snap.
      w.get_varint64 >>= λ ino. pure (record { reg = reg; snap = snap; ino = ino })

  pub dir_id-Reads : IsWire w → (id : DirId) → IsDirId id → Reads get_dir_id id (put_dir_id id)
  unfolding get_dir_id put_dir_id
  dir_id-Reads l id h = Reads-bind w.get_varint64 _ id.reg id _ _ (l.varint64 id.reg h.0) (
      Reads-bind w.get_varint64 _ id.snap id _ _ (l.varint64 id.snap h.1) (
        Reads-last w.get_varint64 (λ ino. record { reg = id.reg; snap = id.snap; ino = ino }) id.ino
          _ (l.varint64 id.ino h.2)))
