-- ===== src/Plfsio/Bufio/Drain.antt =====
-- A DirectWriter of src/libdeltafs/plfsio/v1/bufio.cc gets its data to the file.
use mathlib.Core.List.{append-nil}
use mathlib.Core.Path.{subst}
use deltafs.Prelude.{
  ℕ, ◌+◌, ◌-◌, ◌≡◌, refl, Bool, true, false, ◌==◌, List, [], ◌∷◌, ◌++◌, Bytes, is_empty,
  if◌then◌else◌, arith, inl, inr, Bool-cases, ◌∙◌, sym, ap,
}
use deltafs.Plfsio.Bufio.{
  DirectWriter, Outcome, returned, waits, is_writer, schedule_compaction, start_all_compactions,
  compact, do_compaction,
}
use deltafs.Plfsio.Bufio.Log.{
  Reach, IsLog, Logs, bytes_of, is_empty_nil, flush-Logs, do_compaction-Keeps, Reach-IsLog,
}

module _ (torn : Bytes) where
  -- A compaction that succeeds leaves nothing scheduled, and the active buffer as it was.
  record IsSettled (w w' : DirectWriter) : Type 0 where
    ok : w'.cmgr.ok ≡ true
    nothing : w'.scheduled ≡ []
    active : w'.membuf ≡ w.membuf

  compact-IsSettled :
      (buf : Bytes) (w : DirectWriter)
      → w.cmgr.ok ≡ true
      → w.finished ≡ false
      → IsSettled w (compact true torn (w.cmgr.last_completed + 1) buf [] w)
  unfolding compact is_writer
  compact-IsSettled buf w ok running = record {
    ok = ground arith;
    nothing = ground arith;
    active = ground arith;
  }

  do_compaction-IsSettled :
      (log : Bytes) (w : DirectWriter)
      → IsLog log w
      → w.cmgr.ok ≡ true
      → IsSettled w (do_compaction true torn w)
  unfolding do_compaction
  do_compaction-IsSettled log w v ok =
      let run : List (ℕ × Bytes) → DirectWriter =
        λ s. elim s [ [] ↦ w | (cseq, immbuf) ∷ rest ↦ compact true torn cseq immbuf rest w ] in
      elim v.turn [
        | inl (none, one, next) ↦
            subst (IsSettled w) (ap run (sym none))
              (record { ok = ok; nothing = none; active = refl })
        | inr (buf, one, none, next) ↦
            subst (IsSettled w) (ap run (sym one)) (compact-IsSettled buf w ok v.running)
      ]

  -- With an empty active buffer, one compaction gets everything to the file.
  all_in_file :
      (log : Bytes) (w : DirectWriter)
      → IsLog log w
      → w.cmgr.ok ≡ true
      → w.membuf ≡ []
      → (do_compaction true torn w).dst ≡ log
  all_in_file log w v ok empty =
      let s = do_compaction-IsSettled log w v ok in
      let w' = do_compaction true torn w in
      let v' = do_compaction-Keeps log torn true w (λ e. v) s.ok in
      sym (append-nil w'.dst)
      ∙ (ap (λ bs. w'.dst ++ bs)
            (sym (ap (λ s. bytes_of s ++ w'.membuf) s.nothing ∙ (s.active ∙ empty)))
          ∙ v'.same)

  -- What flushing does when a buffer is free.
  record IsFlushed (log : Bytes) (o : Outcome) : Type 0 where
    after : DirectWriter
    is_returned : o ≡ returned true after
    logs : IsLog log after
    ok : after.cmgr.ok ≡ true
    empty : after.membuf ≡ []

  one_free :
      (log : Bytes) (w : DirectWriter) → IsLog log w → w.scheduled ≡ [] → (w.bufs == 0) ≡ false
  one_free log w v none = elim v.turn [
    | inl (e, one, next) ↦ ground arith
    | inr (buf, e, zero', next) ↦ absurd (cc)
  ]

  flush-IsFlushed :
      (log : Bytes) (w : DirectWriter)
      → IsLog log w
      → w.cmgr.ok ≡ true
      → w.scheduled ≡ []
      → IsFlushed log (start_all_compactions w)
  flush-IsFlushed log w v ok none = elim (Bool-cases (is_empty w.membuf)) [
    | inl e ↦ record {
      after = w;
      is_returned = unfold start_all_compactions in rw e refl;
      logs = v;
      ok = ok;
      empty = is_empty_nil w.membuf e;
    }
    | inr e ↦
        let after : DirectWriter = record w {
          membuf = [];
          bufs = w.bufs - 1;
          scheduled = w.scheduled ++ (w.cmgr.next_cseq, w.membuf) ∷ [];
          cmgr = record w.cmgr { next_cseq = w.cmgr.next_cseq + 1; npending = w.cmgr.npending + 1 };
        } in
        let way : Bool → Bool → Bool → Outcome = λ empty none good.
          if empty
          then returned true w
          else if none
          then waits
          else if good
          then returned true after
          else returned false (record w { membuf = []; bufs = w.bufs - 1 }) in
        let free : (w.bufs == 0) ≡ false = one_free log w v none in
        let returns : start_all_compactions w ≡ returned true after =
          unfold start_all_compactions schedule_compaction in
          (ap (λ b. way b (w.bufs == 0) w.cmgr.ok) e
            ∙ (ap (λ b. way false b w.cmgr.ok) free ∙ ap (way false false) ok)) in
        record {
          after = after;
          is_returned = returns;
          logs = subst (Logs log) returns (flush-Logs log w (λ e. v)) ok;
          ok = ok;
          empty = refl;
        }
  ]

  -- While no write has failed, and whatever compaction is scheduled is done, the active buffer can
  -- be flushed without waiting, and after its compaction the file has all that was appended, in
  -- order. This is what Sync waits for.
  pub drains :
      (n : ℕ) (log : Bytes) (w : DirectWriter)
      → Reach n log w
      → w.cmgr.ok ≡ true
      → (w' : DirectWriter) × (start_all_compactions (do_compaction true torn w) ≡ returned true w')
        × ((do_compaction true torn w').dst ≡ log)
  drains n log w r ok =
      let v = Reach-IsLog n log w r ok in
      let s = do_compaction-IsSettled log w v ok in
      let f =
        flush-IsFlushed log (do_compaction true torn w)
          (do_compaction-Keeps log torn true w (λ e. v) s.ok) s.ok s.nothing in
      (f.after, f.is_returned, all_in_file log f.after f.logs f.ok f.empty)
