-- ===== src/Client/Files.antt =====
-- The table of file descriptors in src/libdeltafs/deltafs_client.cc: Alloc, Free, FetchFile, and how
-- InternalOpen and Close use them. A file is what stands behind the pointers in the table.
use deltafs.Prelude.{
  ℕ, zero, suc, ◌+◌, ◌-◌, ◌%◌, ltb, leb, List, Option, none, some, length, replicate, set, get_or,
  if◌then◌else◌,
}

pub record Files (F : Type 0) : Type 0 where
  pub fds : List (Option F)
  pub num_open_fds : ℕ
  pub fd_slot : ℕ

-- BadDescriptor and TooManyOpens.
pub data FdError : Type 0 where
  bad_descriptor too_many_opens : FdError

pub data FdResult (A : Type 0) : Type 0 where
  ok : A → FdResult A
  err : FdError → FdResult A

module _ {F : Type 0} where
  -- Client::Client.
  unfoldable pub init_files : ℕ → Files F
  init_files max_open_fds = record {
    fds = replicate max_open_fds none;
    num_open_fds = 0;
    fd_slot = 0;
  }

  abbrev pub slot : Files F → ℕ → Option F
  slot t i = get_or t.fds i none

  abbrev pub take_slot : F → Files F → ℕ × Files F
  take_slot f t = (
    t.fd_slot,
    record t { fds = set t.fds t.fd_slot (some f); num_open_fds = t.num_open_fds + 1 },
  )

  abbrev pub take_or : F → Files F → Option (ℕ × Files F) → Option F → Option (ℕ × Files F)
  take_or f t rest none = some (take_slot f t)
  take_or f t rest (some g) = rest

  -- The loop of Alloc, on fuel for its rounds; `none` when the fuel is used up.
  unfoldable pub alloc : ℕ → F → Files F → Option (ℕ × Files F)
  alloc zero f t = none
  alloc (suc fuel) f t =
      take_or f t (alloc fuel f (record t { fd_slot = (1 + t.fd_slot) % length t.fds }))
        (slot t t.fd_slot)

  -- Free, for a slot that is in use.
  unfoldable pub free : ℕ → Files F → Files F
  free i t = record t { fds = set t.fds i none; num_open_fds = t.num_open_fds - 1 }

  unfoldable pub fetch_file : ℕ → Files F → Option F
  fetch_file fd t = if ltb fd (length t.fds) then slot t fd else none

  abbrev pub opened : Option (ℕ × Files F) → Files F → Option (FdResult ℕ × Files F)
  opened none t = none
  opened (some (fd, u)) t = some (ok fd, u)

  -- The end of InternalOpen, once the file is there.
  unfoldable pub open_file : ℕ → F → Files F → Option (FdResult ℕ × Files F)
  open_file fuel f t =
      if leb (length t.fds) t.num_open_fds
      then some (err too_many_opens, t)
      else opened (alloc fuel f t) t

  abbrev pub close_found : ℕ → Files F → Option F → FdResult (Unit {0}) × Files F
  close_found fd t none = (err bad_descriptor, t)
  close_found fd t (some f) = (ok tt, free fd t)

  -- Close, for the table.
  unfoldable pub close : ℕ → Files F → FdResult (Unit {0}) × Files F
  close fd t = close_found fd t (fetch_file fd t)
