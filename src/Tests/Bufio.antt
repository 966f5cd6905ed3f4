-- ===== src/Tests/Bufio.antt =====
-- The buffered writer at concrete inputs.
use deltafs.Prelude.{◌≡◌, refl, true, [], ◌∷◌}
use deltafs.Plfsio.Bufio.{
  DirectWriter, returned, new_writer, append, start_all_compactions, schedule_compaction,
  do_compaction,
}
use deltafs.Plfsio.Bufio.Log.{Reach, start, appended, IsLog, Reach-IsLog}
use deltafs.Plfsio.Bufio.Drain.{drains}

-- Buffers of two bytes: the second append replaces the first buffer.
abbrev two_appended : DirectWriter
two_appended = record (new_writer 2) {
  cmgr = record { next_cseq = 2; last_completed = 0; npending = 1; ok = true };
  bufs = 0;
  membuf = 3 ∷ 4 ∷ [];
  scheduled = (1, 1 ∷ 2 ∷ []) ∷ [];
}

two_appended_ok : two_appended.cmgr.ok ≡ true
unfolding new_writer
two_appended_ok = refl

two_appended-Reach : Reach 2 (1 ∷ 2 ∷ 3 ∷ 4 ∷ []) two_appended
unfolding append schedule_compaction new_writer
two_appended-Reach =
    appended {log = 1 ∷ 2 ∷ []} {w = record (new_writer 2) { membuf = 1 ∷ 2 ∷ [] }} (3 ∷ 4 ∷ [])
      (appended {log = []} {w = new_writer 2} (1 ∷ 2 ∷ []) start refl) refl

Reach-IsLog_example : IsLog (1 ∷ 2 ∷ 3 ∷ 4 ∷ []) two_appended
Reach-IsLog_example =
    Reach-IsLog 2 (1 ∷ 2 ∷ 3 ∷ 4 ∷ []) two_appended two_appended-Reach two_appended_ok

drains_example :
    (w' : DirectWriter) × (start_all_compactions (do_compaction true [] two_appended)
      ≡ returned true w')
    × ((do_compaction true [] w').dst ≡ 1 ∷ 2 ∷ 3 ∷ 4 ∷ [])
drains_example = drains [] 2 (1 ∷ 2 ∷ 3 ∷ 4 ∷ []) two_appended two_appended-Reach two_appended_ok
