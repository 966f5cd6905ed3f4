-- ===== src/Plfsio/Bufio/Log.antt =====
-- A DirectWriter of src/libdeltafs/plfsio/v1/bufio.cc against the log of what was appended.
use mathlib.Core.List.{append_assoc, append-nil}
use mathlib.Core.Path.{subst}
use mathlib.Core.Bool.{true≢false}
use deltafs.Prelude.{
  ℕ, ◌+◌, ◌-◌, ◌≡◌, refl, Bool, true, false, not, ◌&&◌, ◌||◌, ◌==◌, leb, List, [], ◌∷◌, ◌++◌, Bytes,
  length, is_empty, if◌then◌else◌, arith, ◌⊎◌, inl, inr, ◌∙◌, sym, ap,
}
use deltafs.Plfsio.Bufio.{
  DirectWriter, Outcome, returned, waits, new_writer, is_writer, schedule_compaction, append,
  start_all_compactions, compact, do_compaction,
}

abbrev pub bytes_of : List (ℕ × Bytes) → Bytes
bytes_of [] = []
bytes_of ((cseq, buf) ∷ rest) = buf ++ bytes_of rest

-- What the file holds, is to get, and what is still in the active buffer.
abbrev pub contents : DirectWriter → Bytes
contents w = w.dst ++ (bytes_of w.scheduled ++ w.membuf)

-- The states that calls, compactions and failures lead to, with the log of the appends that
-- succeeded.
pub data Reach (buf_size : ℕ) : Bytes → DirectWriter → Type 0 where
  start : Reach buf_size [] (new_writer buf_size)
  appended :
      {log : Bytes} {w w' : DirectWriter} (dat : Bytes)
      → Reach buf_size log w
      → append dat w ≡ returned true w'
      → Reach buf_size (log ++ dat) w'
  flushed :
      {log : Bytes} {w w' : DirectWriter}
      → Reach buf_size log w
      → start_all_compactions w ≡ returned true w'
      → Reach buf_size log w'
  compacted :
      {log : Bytes} {w : DirectWriter} (works : Bool) (torn : Bytes)
      → Reach buf_size log w
      → Reach buf_size log (do_compaction works torn w)

-- While no write has failed: nothing is lost, one buffer is free or scheduled, and it is its turn.
pub record IsLog (log : Bytes) (w : DirectWriter) : Type 0 where
  pub same : contents w ≡ log
  pub running : w.finished ≡ false
  pub pending : w.cmgr.npending ≡ length w.scheduled
  pub turn :
      ((w.scheduled ≡ []) × (w.bufs ≡ 1) × (w.cmgr.next_cseq ≡ w.cmgr.last_completed + 1))
      ⊎ ((buf : Bytes) × (w.scheduled ≡ (w.cmgr.last_completed + 1, buf) ∷ [])
          × (w.bufs ≡ 0)
          × (w.cmgr.next_cseq ≡ w.cmgr.last_completed + 2))

-- What a call leaves, if it succeeds and no write has failed.
abbrev pub Logs : Bytes → Outcome → Type 0
Logs log (returned true w) = w.cmgr.ok ≡ true → IsLog log w
Logs log (returned false w) = Unit
Logs log waits = Unit

Logs-if :
    (log : Bytes) (b : Bool) (x y : Outcome)
    → (b ≡ true → Logs log x)
    → (b ≡ false → Logs log y)
    → Logs log (if b then x else y)
Logs-if log true x y p q = p refl
Logs-if log false x y p q = q refl

-- A buffer that is replaced by one with new data is scheduled.
schedule-Logs :
    (log new : Bytes) (w : DirectWriter)
    → (w.cmgr.ok ≡ true → IsLog log w)
    → (w.bufs == 0) ≡ false
    → Logs
        (log ++ new)
        (schedule_compaction w.membuf (record w { membuf = new; bufs = w.bufs - 1 }))
unfolding schedule_compaction
schedule-Logs log new w inv some =
    Logs-if (log ++ new) w.cmgr.ok _ _
      (λ ok again.
        let v = inv ok in
        elim v.turn [
          | inl (none, one, next) ↦
              let whole : w.dst ++ w.membuf ≡ log =
                ap (λ s. w.dst ++ (bytes_of s ++ w.membuf)) (sym none) ∙ v.same in
              record {
                same =
                    ap (λ s. w.dst ++ (bytes_of (s ++ (w.cmgr.next_cseq, w.membuf) ∷ []) ++ new))
                      none
                    ∙ (ap (λ bs. w.dst ++ (bs ++ new)) (append-nil w.membuf)
                        ∙ (sym (append_assoc w.dst w.membuf new) ∙ ap (λ bs. bs ++ new) whole));
                running = v.running;
                pending =
                    ap (λ n. n + 1) v.pending
                    ∙ (ap (λ s. length s + 1) none
                        ∙ ap (λ s. length (s ++ (w.cmgr.next_cseq, w.membuf) ∷ [])) (sym none));
                turn = inr (
                  w.membuf,
                  ap (λ s. s ++ (w.cmgr.next_cseq, w.membuf) ∷ []) none
                      ∙ ap (λ n. (n, w.membuf) ∷ []) next,
                  omega arith,
                  omega arith,
                );
              }
          | inr (buf, one, none, next) ↦ absurd (ground arith)
        ])
      (λ bad. tt)

append-Logs :
    (log dat : Bytes) (w : DirectWriter)
    → (w.cmgr.ok ≡ true → IsLog log w)
    → Logs (log ++ dat) (append dat w)
unfolding append
append-Logs log dat w inv =
    Logs-if _ w.finished _ _ (λ e. tt)
      (λ e.
        Logs-if _ (leb (length w.membuf + length dat) w.buf_threshold) _ _
          (λ fits ok.
            let v = inv ok in
            record {
              same =
                  ap (λ bs. w.dst ++ bs) (sym (append_assoc (bytes_of w.scheduled) w.membuf dat))
                  ∙ (sym (append_assoc w.dst (bytes_of w.scheduled ++ w.membuf) dat)
                      ∙ ap (λ bs. bs ++ dat) v.same);
              running = v.running;
              pending = v.pending;
              turn = v.turn;
            })
          (λ over. Logs-if _ (w.bufs == 0) _ _ (λ none. tt) (schedule-Logs log dat w inv)))

pub flush-Logs :
    (log : Bytes) (w : DirectWriter)
    → (w.cmgr.ok ≡ true → IsLog log w)
    → Logs log (start_all_compactions w)
unfolding start_all_compactions
flush-Logs log w inv =
    Logs-if _ (is_empty w.membuf) _ _ (λ e. inv)
      (λ e.
        Logs-if _ (w.bufs == 0) _ _ (λ none. tt)
          (λ some.
            subst
              (λ l.
                Logs l (schedule_compaction w.membuf (record w { membuf = []; bufs = w.bufs - 1 })))
              (append-nil log) (schedule-Logs log [] w inv some)))

-- A writer that has the log while no write has failed.
abbrev pub Keeps : Bytes → DirectWriter → Type 0
Keeps log w = w.cmgr.ok ≡ true → IsLog log w

Keeps-if :
    (log : Bytes) (b : Bool) (x y : DirectWriter)
    → (b ≡ true → Keeps log x)
    → (b ≡ false → Keeps log y)
    → Keeps log (if b then x else y)
Keeps-if log true x y p q = p refl
Keeps-if log false x y p q = q refl

and_left : (a b : Bool) → (a && b) ≡ true → a ≡ true
and_left true b e = refl
and_left false b e = e

pub is_empty_nil : (bs : Bytes) → is_empty bs ≡ true → bs ≡ []
is_empty_nil [] e = refl
is_empty_nil (b ∷ bs) e = absurd (true≢false (sym e))

-- The buffer whose turn it is leaves the schedule, and its data is in the file.
written :
    (log buf dst : Bytes) (w : DirectWriter)
    → IsLog log w
    → w.scheduled ≡ (w.cmgr.last_completed + 1, buf) ∷ []
    → w.bufs ≡ 0
    → w.cmgr.next_cseq ≡ w.cmgr.last_completed + 2
    → dst ≡ w.dst ++ buf
    → IsLog log (record w {
      bufs = w.bufs + 1;
      scheduled = [];
      dst = dst;
      cmgr = record w.cmgr {
        last_completed = w.cmgr.last_completed + 1;
        npending = w.cmgr.npending - 1;
      };
    })
written log buf dst w v one none next e = record {
  same =
      ap (λ d. d ++ w.membuf) e
      ∙ (append_assoc w.dst buf w.membuf
          ∙ (ap (λ bs. w.dst ++ (bs ++ w.membuf)) (sym (append-nil buf))
              ∙ (ap (λ s. w.dst ++ (bytes_of s ++ w.membuf)) (sym one) ∙ v.same)));
  running = v.running;
  pending = ap (λ n. n - 1) (v.pending ∙ ap length one);
  turn = inl (refl, ap (λ n. n + 1) none, next ∙ omega arith);
}

compact-Keeps :
    (log torn buf : Bytes) (works : Bool) (w : DirectWriter)
    → IsLog log w
    → w.cmgr.ok ≡ true
    → w.scheduled ≡ (w.cmgr.last_completed + 1, buf) ∷ []
    → w.bufs ≡ 0
    → w.cmgr.next_cseq ≡ w.cmgr.last_completed + 2
    → Keeps log (compact works torn (w.cmgr.last_completed + 1) buf [] w)
unfolding compact is_writer
compact-Keeps log torn buf works w v ok one none next =
    let freed = record w { bufs = w.bufs + 1; scheduled = [] } in
    let completed = record w.cmgr {
      last_completed = w.cmgr.last_completed + 1;
      npending = w.cmgr.npending - 1;
    } in
    let failed = record w.cmgr { ok = false } in
    let full : DirectWriter = record freed { dst = w.dst ++ buf; cmgr = completed } in
    let torn_off : DirectWriter = record freed { dst = torn; cmgr = failed } in
    let refused : DirectWriter = record freed { cmgr = failed } in
    let ends = not w.cmgr.ok || w.finished in
    let waits_turn =
      w.cmgr.ok && not (w.cmgr.last_completed + 1 == w.cmgr.last_completed + 1) && not w.finished in
    let write = if works then full else torn_off in
    let done = is_empty buf && (w.cmgr.last_completed + 1 == w.cmgr.last_completed + 1) in
    Keeps-if log done _ _
      (λ e again.
        let empty = is_empty_nil buf (and_left (is_empty buf) _ e) in
        written log buf w.dst w v one none next
          (sym (ap (λ bs. w.dst ++ bs) empty ∙ append-nil w.dst)))
      (λ e.
        Keeps-if log waits_turn w (if ends then refused else write) (λ e' again. v)
          (λ e'.
            Keeps-if log ends refused write (λ e'' bad. absurd (true≢false (sym bad)))
              (λ e''.
                Keeps-if log works full torn_off
                  (λ good again. written log buf (w.dst ++ buf) w v one none next refl)
                  (λ failed bad. absurd (true≢false (sym bad))))))

-- After a failure, nothing is OK again.
bad_stays :
    (torn buf : Bytes) (cseq : ℕ) (rest : List (ℕ × Bytes)) (works : Bool) (w : DirectWriter)
    → w.cmgr.ok ≡ false
    → (compact works torn cseq buf rest w).cmgr.ok ≡ false
unfolding compact
bad_stays torn buf cseq rest works w bad = ground arith

module _ (log torn : Bytes) (works : Bool) (w : DirectWriter) (inv : Keeps log w) where
  -- Whatever is scheduled, by whether a write has failed before.
  do_compaction_from :
      (ok : Bool) (scheduled : List (ℕ × Bytes))
      → w.cmgr.ok ≡ ok
      → w.scheduled ≡ scheduled
      → Keeps log (elim scheduled as (λ s. DirectWriter) [
        | [] ↦ w
        | (cseq, immbuf) ∷ rest ↦ compact works torn cseq immbuf rest w
      ])
  do_compaction_from ok [] e e' again = inv again
  do_compaction_from false ((cseq, buf) ∷ rest) e e' again =
      absurd (true≢false (sym again ∙ bad_stays torn buf cseq rest works w e))
  do_compaction_from true ((cseq, buf) ∷ rest) e e' again = elim (inv e).turn [
    | inl (none, one, next) ↦ absurd (cc)
    | inr (buf', one, none, next) ↦
        subst
          (λ s. Keeps log (elim s as (λ s. DirectWriter) [
            | [] ↦ w
            | (cseq, immbuf) ∷ rest ↦ compact works torn cseq immbuf rest w
          ]))
          (sym one ∙ e') (compact-Keeps log torn buf' works w (inv e) e one none next) again
  ]

  pub do_compaction-Keeps : Keeps log (do_compaction works torn w)
  unfolding do_compaction
  do_compaction-Keeps = do_compaction_from w.cmgr.ok w.scheduled refl refl

new_writer-IsLog : (n : ℕ) → IsLog [] (new_writer n)
unfolding new_writer
new_writer-IsLog n = record {
  same = refl;
  running = refl;
  pending = refl;
  turn = inl (refl, refl, refl);
}

-- In every state that calls, compactions and failed writes lead to, if no write has failed: the
-- file, what is scheduled and the active buffer are together what was appended, in this order; as
-- many compactions are pending as are scheduled; and either a buffer is free, or the other one is
-- scheduled and it is its turn.
pub Reach-IsLog :
    (n : ℕ) (log : Bytes) (w : DirectWriter) → Reach n log w → w.cmgr.ok ≡ true → IsLog log w
Reach-IsLog n log w start ok = new_writer-IsLog n
Reach-IsLog n log w (appended {log = before} {w = old} dat r e) ok =
    subst (Logs (before ++ dat)) e (append-Logs before dat old (Reach-IsLog n before old r)) ok
Reach-IsLog n log w (flushed {log = same} {w = old} r e) ok =
    subst (Logs same) e (flush-Logs same old (Reach-IsLog n same old r)) ok
Reach-IsLog n log w (compacted {log = same} {w = old} works torn r) ok =
    do_compaction-Keeps same torn works old (Reach-IsLog n same old r) ok
