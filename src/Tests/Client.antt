-- ===== src/Tests/Client.antt =====
-- The client library at concrete inputs.
use deltafs.Prelude.{ℕ, ◌≡◌, refl, [], ◌∷◌, none, some, inl, arith}
use deltafs.Client.Files
use deltafs.Client.Files.{Files, FdResult, ok, init_files, open_file, close}
use deltafs.Client.Slots.{IsFiles, Opened, open_file-Opened}
use deltafs.Client.Closed.{close-open_file}
use deltafs.Client.Reached.{at_start, after_open, after_close, IsSound, Reach-IsSound}
use deltafs.Client.Paths
use deltafs.Client.Paths.{Places, expand_path}
use deltafs.Client.Clean.{Resolvable, expand_path-Resolvable}

-- Three descriptors, the first two in use, and the search begins at the second.
abbrev two_open : Files ℕ
two_open = record { fds = some 7 ∷ some 8 ∷ none ∷ []; num_open_fds = 2; fd_slot = 1 }

two_open-IsFiles : IsFiles two_open
two_open-IsFiles = record { count = refl; in_range = omega arith }

open_file-Opened_example : Opened 9 two_open (open_file 3 9 two_open)
open_file-Opened_example =
    open_file-Opened 3 9 two_open two_open-IsFiles (omega arith) (omega arith)

abbrev three_open : Files ℕ
three_open = record { fds = some 7 ∷ some 8 ∷ some 9 ∷ []; num_open_fds = 3; fd_slot = 2 }

third_opens : open_file 3 9 two_open ≡ some (ok 2, three_open)
unfolding open_file Files.alloc
third_opens = refl

close-open_file_example : close 2 three_open ≡ (ok tt, record two_open { fd_slot = 2 })
close-open_file_example =
    close-open_file 3 2 9 two_open three_open two_open-IsFiles (omega arith) (omega arith)
      third_opens

abbrev one_open : Files ℕ
one_open = record { fds = some 5 ∷ none ∷ []; num_open_fds = 1; fd_slot = 0 }

first_opens : open_file 2 5 (init_files 2) ≡ some (ok 0, one_open)
unfolding open_file Files.alloc init_files
first_opens = refl

Reach-IsSound_example : IsSound 2 (close 0 one_open).1
Reach-IsSound_example = Reach-IsSound 2 (close 0 one_open).1 (omega arith) (
    after_close 0 one_open
      (after_open 2 5 (ok 0) (init_files 2) one_open at_start (omega arith) first_opens))

-- The root is "/r", and the path is "a//".
abbrev places : Places
places = record { curroot = some (47 ∷ 114 ∷ []); curdir = none; mask = 18 }

expand_path-Resolvable_example : Resolvable (expand_path places (97 ∷ 47 ∷ 47 ∷ []))
unfolding Paths.trim
expand_path-Resolvable_example =
    expand_path-Resolvable places (97 ∷ 47 ∷ 47 ∷ []) refl tt (inl (λ e. cc)) refl
