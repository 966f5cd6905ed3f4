-- ===== src/Cli/State.antt =====
-- The state of `MDS::CLI` (src/libdeltafs/mds_cli.h), what it takes from pdlfs-common, and how its
-- operations end.
use deltafs.Prelude.{ℕ, ◌-◌, ◌^◌, Bool, true, false, [], Option, Bytes}
use deltafs.Mds.Types.{Error, DirId, Stat}
use deltafs.Mds.Rpc.Wire.{LookupStat}
use deltafs.Mds.Rpc.Calls.{Service}

-- An LRUCache of pdlfs-common.
pub record Lru (V : Type 0) : Type 1 where
  pub Cache : Type 0
  pub find : Bytes → Cache → Option V × Cache
  pub insert : Bytes → V → Cache → Cache
  pub erase : Bytes → Cache → Cache

-- What the client takes from pdlfs-common.
pub record Common : Type 1 where
  -- DirIndex: a new index, Update with an encoded index and with another index, HashToServer,
  -- ZerothServer, Radix, IsSet, GetServerForIndex, Hash.
  pub Index : Type 0
  pub new_index : Index
  pub update_index : Index → Bytes → Option Index
  pub merge_index : Index → Index → Index
  pub hash_to_server : Index → Bytes → ℕ
  pub index_zserver : Index → ℕ
  pub radix : Index → ℕ
  pub is_set : Index → ℕ → Bool
  pub server_for_index : Index → ℕ → ℕ
  pub name_hash : Bytes → Bytes
  pub put_varint64 : ℕ → Bytes
  pub lookups : Lru LookupStat
  pub indexes : Lru Index

-- MDSCliOptions.
pub record CliConfig : Type 0 where
  pub paranoid_checks : Bool
  pub atomic_path_resolution : Bool
  pub max_redirects_allowed : ℕ
  pub num_servers : ℕ
  pub session_id : ℕ
  pub uid : ℕ
  pub gid : ℕ

-- `world` is what is outside: the servers and the clock.
pub record Cli (x : Common) (S : Type 0) : Type 0 where
  pub lookup_cache : x.lookups.Cache
  pub index_cache : x.indexes.Cache
  pub world : S

-- Env::NowMicros and the servers of the MDSFactory.
pub record Outside (S : Type 0) : Type 0 where
  pub current_micros : S → ℕ × S
  pub get : ℕ → Service S

-- How an operation ends: with a value; with an error and the text that ResolvePath then stores in
-- `*missing_parent`, if it stores one; by an exception; or not within the fuel.
pub data Out (A : Type 0) : Type 0 where
  returned : A → Out A
  failed : Error → Bytes → Out A
  thrown : Bytes → Out A
  running : Out A

abbrev pub Do : Common → Type 0 → Type 0 → Type 0
Do x S A = Cli x S → Out A × Cli x S

abbrev pub bind : {x : Common} {S A B : Type 0} → Out A × Cli x S → (A → Do x S B) → Out B × Cli x S
bind (returned a, s) f = f a s
bind (failed e missing, s) f = (failed e missing, s)
bind (thrown idx, s) f = (thrown idx, s)
bind (running, s) f = (running, s)

infixl 5 ◌>>=◌ ◌>>◌
abbrev pub ◌>>=◌ : {x : Common} {S A B : Type 0} → Do x S A → (A → Do x S B) → Do x S B
◌>>=◌ m f s = bind (m s) f

abbrev pub ◌>>◌ : {x : Common} {S B : Type 0} → Do x S (Unit {0}) → Do x S B → Do x S B
◌>>◌ m k = m >>= λ _. k

abbrev pub pure : {x : Common} {S A : Type 0} → A → Do x S A
pure a s = (returned a, s)

abbrev pub fail : {x : Common} {S A : Type 0} → Error → Do x S A
fail e s = (failed e [], s)

-- `s = e` under a condition, at the start of a chain of `else`.
abbrev pub refuse_if : {x : Common} {S : Type 0} → Bool → Error → Do x S (Unit {0})
refuse_if b e s = elim b [ true ↦ fail e s | false ↦ pure tt s ]

-- DELTAFS_MAX_MICROS.
abbrev pub max_micros : ℕ
max_micros = 2 ^ 63 - 1

-- Fentry of pdlfs-common.
pub record Fentry : Type 0 where
  pub pid : DirId
  pub nhash : Bytes
  pub zserver : ℕ
  pub stat : Stat
