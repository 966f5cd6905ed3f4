-- ===== src/Plfsio/Bufio.antt =====
-- DirectWriter of src/libdeltafs/plfsio/v1/bufio.cc with the CompactionMgr of compaction_mgr.h that
-- it owns. A buffer that is full is scheduled for compaction, which writes it to the file when its
-- turn has come. Each function is what happens under the mutex between two waits; the file is what
-- was written to it. Sequence numbers are below 2 ^ 32, that is, there are fewer compactions.
pub mod Log
pub mod Drain
use deltafs.Prelude.{
  ℕ, zero, suc, ◌+◌, ◌-◌, ◌≤◌, ◌≡◌, Bool, true, false, not, ◌&&◌, ◌||◌, ◌==◌, leb, List, [], ◌∷◌,
  ◌++◌, Bytes, length, is_empty, if◌then◌else◌,
}

pub record CompactionMgr : Type 0 where
  pub next_cseq : ℕ
  pub last_completed : ℕ
  pub npending : ℕ
  -- bg_status_ is OK.
  pub ok : Bool

pub record DirectWriter : Type 0 where
  pub buf_threshold : ℕ
  pub finished : Bool
  pub cmgr : CompactionMgr
  -- How many buffers are free; a free buffer is empty.
  pub bufs : ℕ
  pub membuf : Bytes
  -- What is scheduled and not done, the first scheduled first.
  pub scheduled : List (ℕ × Bytes)
  pub dst : Bytes

-- What a call comes to before it leaves the mutex.
pub data Outcome : Type 0 where
  returned : Bool → DirectWriter → Outcome
  waits : Outcome

unfoldable pub new_writer : ℕ → DirectWriter
new_writer buf_size = record {
  buf_threshold = buf_size;
  finished = false;
  cmgr = record { next_cseq = 1; last_completed = 0; npending = 0; ok = true };
  bufs = 1;
  membuf = [];
  scheduled = [];
  dst = [];
}

unfoldable pub is_writer : ℕ → CompactionMgr → Bool
is_writer cseq g = cseq == g.last_completed + 1

-- ScheduleCompaction with a thread pool, for a buffer that the writer has replaced.
unfoldable pub schedule_compaction : Bytes → DirectWriter → Outcome
schedule_compaction tocompact w =
    if w.cmgr.ok
    then returned true (record w {
      scheduled = w.scheduled ++ (w.cmgr.next_cseq, tocompact) ∷ [];
      cmgr = record w.cmgr { next_cseq = w.cmgr.next_cseq + 1; npending = w.cmgr.npending + 1 };
    })
    else returned false w

unfoldable pub append : Bytes → DirectWriter → Outcome
append dat w =
    if w.finished
    then returned false w
    else if leb (length w.membuf + length dat) w.buf_threshold
    then returned true (record w { membuf = w.membuf ++ dat })
    else if w.bufs == 0
    then waits
    else schedule_compaction w.membuf (record w { membuf = dat; bufs = w.bufs - 1 })

-- StartAllCompactions, which is Flush.
unfoldable pub start_all_compactions : DirectWriter → Outcome
start_all_compactions w =
    if is_empty w.membuf
    then returned true w
    else if w.bufs == 0
    then waits
    else schedule_compaction w.membuf (record w { membuf = []; bufs = w.bufs - 1 })

-- DoCompaction with Compact, for the buffer that is the first of those that are scheduled: it
-- waits for its turn; `works` is whether the file takes the data, and `torn` what the file has if
-- it does not.
unfoldable pub compact : Bool → Bytes → ℕ → Bytes → List (ℕ × Bytes) → DirectWriter → DirectWriter
compact works torn cseq immbuf rest w =
    let freed = record w { bufs = w.bufs + 1; scheduled = rest } in
    let completed = record w.cmgr {
      last_completed = w.cmgr.last_completed + 1;
      npending = w.cmgr.npending - 1;
    } in
    if is_empty immbuf && is_writer cseq w.cmgr
    then record freed { cmgr = completed }
    else if w.cmgr.ok && not (is_writer cseq w.cmgr) && not w.finished
    then w
    else if not w.cmgr.ok || w.finished
    then record freed { cmgr = record w.cmgr { ok = false } }
    else if works
    then record freed { dst = w.dst ++ immbuf; cmgr = completed }
    else record freed { dst = torn; cmgr = record w.cmgr { ok = false } }

unfoldable pub do_compaction : Bool → Bytes → DirectWriter → DirectWriter
do_compaction works torn w = elim w.scheduled [
  | [] ↦ w
  | (cseq, immbuf) ∷ rest ↦ compact works torn cseq immbuf rest w
]
