-- ===== src/Mds/Server.antt =====
-- The state of `MDS::SRV` (src/libdeltafs/mds_srv.h, mds.cc) with its directories and leases
-- (util/dcntl.h, util/lease.h).
use deltafs.Prelude.{
  ℕ, ◌+◌, ◌-◌, ◌*◌, ◌%◌, ◌^◌, Bool, true, false, ◌&&◌, ◌||◌, not, ltb, leb, ◌==◌, List, [], ◌∷◌,
  Option, none, some, Bytes, bytes_eq, if◌then◌else◌,
}
use deltafs.Mds.Types.{Ext, Result, ok, err, Error, buffer_full, DirId, dir_id_eq, u32_mod, u64_mod}
use deltafs.Mds.Db.{Tx}
use deltafs.Mds.Table.{find, put, insert, remove, Inserted, exists_already, no_buffers, inserted}

-- Constant after construction: MDSOptions and MDSEnv.
pub record Config : Type 0 where
  pub paranoid_checks : Bool
  pub lease_duration : ℕ
  pub snap_id : ℕ
  pub reg_id : ℕ
  pub srv_id : ℕ
  pub num_servers : ℕ
  pub num_virtual_servers : ℕ
  pub env_name : Bytes
  pub env_conf : Bytes
  pub fio_name : Bytes
  pub fio_conf : Bytes
  pub input_conf : Bytes
  pub output_conf : Bytes

pub data LeaseState : Type 0 where
  lease_free lease_shared lease_locked : LeaseState

-- `parent` is the id under which the parent directory stands in the directory table.
pub record Lease : Type 0 where
  pub seq : ℕ
  pub parent : DirId
  pub due : ℕ
  pub state : LeaseState

-- Lease::busy.
unfoldable pub busy : ℕ → Lease → Bool
busy now l = elim l.state [
  | lease_locked ↦ true
  | lease_free ↦ ltb now l.due
  | lease_shared ↦ ltb now l.due
]

abbrev pub LeaseKey : Type 0
LeaseKey = DirId × Bytes

unfoldable pub lease_key_eq : LeaseKey → LeaseKey → Bool
lease_key_eq (d, h) (e, i) = dir_id_eq d e && bytes_eq h i

-- `status` is the error that fences the directory, if there is one.
pub record Dir (x : Ext) : Type 0 where
  pub mtime : ℕ
  pub seq : ℕ
  pub tx : Option (Tx x)
  pub index : x.Index
  pub status : Option Error
  pub num_leases : ℕ
  pub size : ℕ
  pub locked : Bool

abbrev is_set : {A : Type 0} → Option A → Bool
is_set none = false
is_set (some a) = true

-- Dir::busy.
unfoldable pub dir_busy : {x : Ext} → Dir x → Bool
dir_busy d = is_set d.tx || d.locked || not (d.num_leases == 0)

pub record Srv (x : Ext) : Type 0 where
  pub store : x.Store
  pub leases : List (LeaseKey × Lease)
  pub dirs : List (DirId × Dir x)
  pub session : ℕ
  pub ino : ℕ
  pub status : Option Error

-- What a call meets outside: readings of the clock, and the choices of the two caches.
pub record Answers : Type 0 where
  pub load_time : ℕ
  pub start : ℕ
  pub end : ℕ
  pub dir_room : Option (DirId → Bool)
  pub lease_room : Option (LeaseKey → Bool)

-- How a call ends: with a status and a result, or by throwing a redirection.
pub data Reply (A : Type 0) : Type 0 where
  done : Result A → Reply A
  redirect : Bytes → Reply A

abbrev keeps : Option (LeaseKey → Bool) → LeaseKey → Bool
keeps none k = true
keeps (some keep) k = keep k

module _ {x : Ext} where
  unfoldable pub find_dir : DirId → Srv x → Option (Dir x)
  find_dir id s = find dir_id_eq id s.dirs

  unfoldable pub put_dir : DirId → Dir x → Srv x → Srv x
  put_dir id d s = record s { dirs = put dir_id_eq id d s.dirs }

  -- DirTable::Insert.
  unfoldable pub insert_dir : Answers → DirId → Dir x → Srv x → Inserted (Srv x)
  insert_dir a id d s = elim (insert dir_id_eq a.dir_room dir_busy id d s.dirs) [
    | exists_already ↦ exists_already
    | no_buffers ↦ no_buffers
    | inserted t ↦ inserted (record s { dirs = t })
  ]

  unfoldable pub erase_dir : DirId → Srv x → Srv x
  erase_dir id s = record s { dirs = remove dir_id_eq id s.dirs }

  unfoldable pub find_lease : LeaseKey → Srv x → Option Lease
  find_lease k s = find lease_key_eq k s.leases

  unfoldable pub put_lease : LeaseKey → Lease → Srv x → Srv x
  put_lease k l s = record s { leases = put lease_key_eq k l s.leases }

  -- DeleteLease: one lease less below the parent.
  unfoldable pub release_parent : Lease → List (DirId × Dir x) → List (DirId × Dir x)
  release_parent l ds = elim (find dir_id_eq l.parent ds) [
    | none ↦ ds
    | some d ↦ put dir_id_eq l.parent (record d { num_leases = d.num_leases - 1 }) ds
  ]

  -- DeleteLease for each lease that makes room.
  unfoldable pub release_dropped :
      (LeaseKey → Bool) → ℕ → List (LeaseKey × Lease) → List (DirId × Dir x) → List (DirId × Dir x)
  release_dropped keep now [] ds = ds
  release_dropped keep now ((k, l) ∷ t) ds =
      let rest = release_dropped keep now t ds in
      if keep k || busy now l then rest else release_parent l rest

  -- LeaseTable::Insert at the time `now`.
  unfoldable pub insert_lease : Answers → ℕ → LeaseKey → Lease → Srv x → Inserted (Srv x)
  insert_lease a now k l s = elim (insert lease_key_eq a.lease_room (busy now) k l s.leases) [
    | exists_already ↦ exists_already
    | no_buffers ↦ no_buffers
    | inserted t ↦
        inserted
          (record s { leases = t; dirs = release_dropped (keeps a.lease_room) now s.leases s.dirs })
  ]

  abbrev erased : Option Lease → List (DirId × Dir x) → List (DirId × Dir x)
  erased none ds = ds
  erased (some l) ds = release_parent l ds

  -- LeaseTable::Erase.
  unfoldable pub erase_lease : LeaseKey → Srv x → Srv x
  erase_lease k s = record s {
    leases = remove lease_key_eq k s.leases;
    dirs = erased (find lease_key_eq k s.leases) s.dirs;
  }

-- MDS::SRV::SRV.
unfoldable pub init_srv : (x : Ext) → Config → x.Store → Srv x
init_srv x cfg store = record {
  store = store;
  leases = [];
  dirs = [];
  session = cfg.srv_id % u32_mod;
  ino = cfg.srv_id * 2 ^ 32 % u64_mod;
  status = none;
}

module _ {x : Ext} where
  -- ++ino_, fenced when the server's range of inode numbers is used up.
  unfoldable pub next_ino : Config → Srv x → ℕ × Srv x
  next_ino cfg s =
      let result = (s.ino + 1) % u64_mod in
      let limit = (cfg.srv_id + 1) * 2 ^ 32 % u64_mod in
      let full = cfg.paranoid_checks && leb limit ((result + 1) % u64_mod) in
      (result, record s { ino = result; status = if full then some buffer_full else s.status })

  unfoldable pub try_reuse_ino : ℕ → Srv x → Srv x
  try_reuse_ino ino s =
      if ino == s.ino then record s { ino = (s.ino + u64_mod - 1) % u64_mod } else s

  unfoldable pub next_session : Config → Srv x → ℕ × Srv x
  next_session cfg s =
      let session = (s.session + cfg.num_servers) % u32_mod in
      (session, record s { session = session })

  -- ProbeDir: the error that fences the server, or else the directory.
  unfoldable pub probe_dir : Srv x → Dir x → Result (Unit {0})
  probe_dir s d = elim s.status [
    | some e ↦ err e
    | none ↦ elim d.status [ some e ↦ err e | none ↦ ok tt ]
  ]
