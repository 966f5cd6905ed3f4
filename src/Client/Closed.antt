-- ===== src/Client/Closed.antt =====
-- Close after InternalOpen, on the table of file descriptors of src/libdeltafs/deltafs_client.cc.
use deltafs.Prelude.{
  ℕ, ◌+◌, ◌-◌, ◌<◌, ◌≤◌, ◌≡◌, sym, ◌∙◌, true, false, ltb, leb, Option, none, some, length, set,
  arith, ap, length-set, get_or-set_self, set-set, set-get_or,
}
use deltafs.Client.Files.{Files, FdResult, ok, slot, free, fetch_file, open_file, close}
use deltafs.Client.Slots.{IsFiles, alloc-Taken_within}

module _ {F : Type 0} where
  abbrev after_open : ℕ → F → Files F → Files F
  after_open i f t = record t {
    fds = set t.fds i (some f);
    num_open_fds = t.num_open_fds + 1;
    fd_slot = i;
  }

  opened-inj :
      (i fd : ℕ) (t u : Files F)
      → ◌≡◌ {A = Option (FdResult ℕ × Files F)} (some (ok i, t)) (some (ok fd, u))
      → (i ≡ fd) × (t ≡ u)
  opened-inj i fd t u h = (cc, cc)

  restored :
      (i : ℕ) (f : F) (t : Files F)
      → slot t i ≡ none
      → free i (after_open i f t) ≡ record t { fd_slot = i }
  unfolding free
  restored i f t e =
      let same : set (set t.fds i (some f)) i none ≡ t.fds =
        set-set t.fds i (some f) none ∙ ap (λ v. set t.fds i v) (sym e) ∙ set-get_or t.fds i none in
      let count : t.num_open_fds + 1 - 1 ≡ t.num_open_fds = omega arith in rw (same, count)

  fetch-after_open :
      (i : ℕ) (f : F) (t : Files F) → i < length t.fds → fetch_file i (after_open i f t) ≡ some f
  unfolding fetch_file
  fetch-after_open i f t lt =
      let inside : ltb i (length t.fds) ≡ true = ground arith in
      rw (length-set t.fds i (some f), inside, get_or-set_self t.fds i (some f) none lt)

  -- Closing the descriptor of a file that was just opened gives the table back. Only the place at
  -- which the next search begins has moved.
  pub close-open_file :
      (fuel fd : ℕ) (f : F) (t u : Files F)
      → IsFiles t
      → t.num_open_fds < length t.fds
      → length t.fds ≤ fuel
      → open_file fuel f t ≡ some (ok fd, u)
      → close fd u ≡ (ok tt, record t { fd_slot = fd })
  unfolding open_file close
  close-open_file fuel fd f t u p room enough o =
      let (i, e, lt, empty) = alloc-Taken_within fuel f t p room enough in
      let room' : leb (length t.fds) t.num_open_fds ≡ false = ground arith in
      let run : open_file fuel f t ≡ some (ok i, after_open i f t) = rw (room', e) in
      let (same_fd, same) = opened-inj i fd (after_open i f t) u (sym run ∙ o) in
      rw (← same, ← same_fd, fetch-after_open i f t lt, restored i f t empty)
