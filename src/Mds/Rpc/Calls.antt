-- ===== src/Mds/Rpc/Calls.antt =====
-- The MDS interface of src/libdeltafs/mds_api.h: the calls with their options, and what each returns.
use deltafs.Prelude.{ℕ, ◌<◌, List, Bytes, length, All}
use deltafs.Mds.Types.{Stat, DirId, u32_mod, u64_mod}
use deltafs.Mds.Server.{Reply}
use deltafs.Mds.Rpc.Wire.{LookupStat, IsDirId, IsStat, IsLookupStat}

pub record BaseOptions : Type 0 where
  pub dir_id : DirId
  pub session_id : ℕ
  pub op_due : ℕ
  pub name_hash : Bytes
  pub name : Bytes

-- What Listdir and Readidx use of the BaseOptions.
pub record DirOptions : Type 0 where
  pub dir_id : DirId
  pub session_id : ℕ
  pub op_due : ℕ

-- FcreatOptions and MkdirOptions have the same fields.
pub record NewOptions : Type 0 where
  pub flags : ℕ
  pub mode : ℕ
  pub uid : ℕ
  pub gid : ℕ

pub record PermOptions : Type 0 where
  pub mode : ℕ
  pub uid : ℕ
  pub gid : ℕ

pub record OwnerOptions : Type 0 where
  pub uid : ℕ
  pub gid : ℕ

pub record TimeOptions : Type 0 where
  pub atime : ℕ
  pub mtime : ℕ

pub record SizeOptions : Type 0 where
  pub mtime : ℕ
  pub size : ℕ

pub data Call : Type 0 where
  fstat lookup : BaseOptions → Call
  listdir readidx : DirOptions → Call
  fcreat mkdir : BaseOptions → NewOptions → Call
  chmod unlink : BaseOptions → ℕ → Call
  chown : BaseOptions → OwnerOptions → Call
  uperm : BaseOptions → PermOptions → Call
  utime : BaseOptions → TimeOptions → Call
  trunc : BaseOptions → SizeOptions → Call
  opensession getinput getoutput : Call

-- FcreatRet; `created` is an unsigned char.
pub record Created : Type 0 where
  pub stat : Stat
  pub created : ℕ

pub record Session : Type 0 where
  pub env_name : Bytes
  pub env_conf : Bytes
  pub fio_name : Bytes
  pub fio_conf : Bytes
  pub session_id : ℕ

-- What a call returns.
abbrev pub Ret : Call → Type 0
Ret (fstat b) = Stat
Ret (lookup b) = LookupStat
Ret (listdir b) = List Bytes
Ret (readidx b) = Bytes
Ret (fcreat b o) = Created
Ret (mkdir b o) = Stat
Ret (chmod b mode) = Stat
Ret (unlink b flags) = Stat
Ret (chown b o) = Stat
Ret (uperm b o) = Stat
Ret (utime b o) = Stat
Ret (trunc b o) = Stat
Ret opensession = Session
Ret getinput = Bytes
Ret getoutput = Bytes

-- An MDS with a state: what `MDS::SRV` is, and what the other side of an RPC stands for.
abbrev pub Service : Type 0 → Type 0
Service S = (c : Call) → S → Reply (Ret c) × S

abbrev pub IsName : Bytes → Type 0
IsName s = length s < u32_mod

abbrev pub IsBase : BaseOptions → Type 0
IsBase b =
    IsDirId b.dir_id
    × (b.session_id < u32_mod)
    × (b.op_due < u64_mod)
    × IsName b.name_hash
    × IsName b.name

abbrev pub IsDirOptions : DirOptions → Type 0
IsDirOptions b = IsDirId b.dir_id × (b.session_id < u32_mod) × (b.op_due < u64_mod)

-- The ranges of the options, by the types of their fields.
abbrev pub IsCall : Call → Type 0
IsCall (fstat b) = IsBase b
IsCall (lookup b) = IsBase b
IsCall (listdir b) = IsDirOptions b
IsCall (readidx b) = IsDirOptions b
IsCall (fcreat b o) =
    IsBase b × (o.flags < u32_mod) × (o.mode < u32_mod) × (o.uid < u32_mod) × (o.gid < u32_mod)
IsCall (mkdir b o) =
    IsBase b × (o.flags < u32_mod) × (o.mode < u32_mod) × (o.uid < u32_mod) × (o.gid < u32_mod)
IsCall (chmod b mode) = IsBase b × (mode < u32_mod)
IsCall (unlink b flags) = IsBase b × (flags < u32_mod)
IsCall (chown b o) = IsBase b × (o.uid < u32_mod) × (o.gid < u32_mod)
IsCall (uperm b o) = IsBase b × (o.mode < u32_mod) × (o.uid < u32_mod) × (o.gid < u32_mod)
IsCall (utime b o) = IsBase b × (o.atime < u64_mod) × (o.mtime < u64_mod)
IsCall (trunc b o) = IsBase b × (o.mtime < u64_mod) × (o.size < u64_mod)
IsCall opensession = Unit {0}
IsCall getinput = Unit {0}
IsCall getoutput = Unit {0}

-- The ranges of the results.
abbrev pub IsRet : (c : Call) → Ret c → Type 0
IsRet (fstat b) r = IsStat r
IsRet (lookup b) r = IsLookupStat r
IsRet (listdir b) r = All IsName r × (length r < u32_mod)
IsRet (readidx b) r = Unit {0}
IsRet (fcreat b o) r = IsStat r.stat
IsRet (mkdir b o) r = IsStat r
IsRet (chmod b mode) r = IsStat r
IsRet (unlink b flags) r = IsStat r
IsRet (chown b o) r = IsStat r
IsRet (uperm b o) r = IsStat r
IsRet (utime b o) r = IsStat r
IsRet (trunc b o) r = IsStat r
IsRet opensession r =
    IsName r.env_name
    × IsName r.env_conf
    × IsName r.fio_name
    × IsName r.fio_conf
    × (r.session_id < u32_mod)
IsRet getinput r = IsName r
IsRet getoutput r = IsName r
