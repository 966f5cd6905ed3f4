-- ===== src/Client/Reached.antt =====
-- The file descriptors of a client of src/libdeltafs/deltafs_client.cc after any opening and closing.
use deltafs.Prelude.{
  ℕ, zero, suc, ◌+◌, ◌<◌, ◌≤◌, ◌≡◌, ◌≢◌, refl, sym, ◌∙◌, ltb, leb, Bool-cases, inl, inr, List, [],
  ◌∷◌, Option, none, some, length, replicate, set, get_or, arith, length-set,
}
use deltafs.Client.Files.{
  Files, FdResult, ok, err, too_many_opens, init_files, slot, fetch_file, free, open_file, close,
  close_found,
}
use deltafs.Client.Slots.{IsFiles, used, open_file-Opened}

-- The tables that a client with `n` descriptors comes to.
pub data Reach {F : Type 0} (n : ℕ) : Files F → Type 0 where
  at_start : Reach n (init_files n)
  after_open :
      (fuel : ℕ) (f : F) (r : FdResult ℕ) (t u : Files F)
      → Reach n t
      → n ≤ fuel
      → open_file fuel f t ≡ some (r, u)
      → Reach n u
  after_close : (fd : ℕ) (t : Files F) → Reach n t → Reach n (close fd t).1

used-replicate : (F : Type 0) (n : ℕ) → used (replicate {A = Option F} n none) ≡ 0
used-replicate F zero = refl
used-replicate F (suc n) = used-replicate F n

length-replicate : (F : Type 0) (n : ℕ) → length (replicate {A = Option F} n none) ≡ n
length-replicate F zero = refl
length-replicate F (suc n) = omega (arith, length-replicate F n)

module _ {F : Type 0} where
  used-set-none :
      (fds : List (Option F)) (i : ℕ) (f : F)
      → get_or fds i none ≡ some f
      → used (set fds i none) + 1 ≡ used fds
  used-set-none [] i f e = cc
  used-set-none (none ∷ fds) zero f e = cc
  used-set-none (some g ∷ fds) zero f e = omega arith
  used-set-none (none ∷ fds) (suc i) f e = used-set-none fds i f e
  used-set-none (some g ∷ fds) (suc i) f e = omega (arith, used-set-none fds i f e)

  -- The count of open descriptors is right, and the size of the table stays.
  pub record IsSound (n : ℕ) (t : Files F) : Type 0 where
    pub files : IsFiles t
    pub size : length t.fds ≡ n

  same_table :
      (a b : FdResult ℕ) (t u : Files F)
      → ◌≡◌ {A = Option (FdResult ℕ × Files F)} (some (a, t)) (some (b, u))
      → t ≡ u
  same_table a b t u h = cc

  some_is_some : (f : F) → some f ≢ none
  some_is_some f e = cc

  freed-IsSound :
      (n fd : ℕ) (t : Files F) (found : Option F)
      → IsSound n t
      → fetch_file fd t ≡ found
      → IsSound n (close_found fd t found).1
  unfolding free fetch_file
  freed-IsSound n fd t none p e = p
  freed-IsSound n fd t (some f) p e = elim (Bool-cases (ltb fd (length t.fds))) [
    | inl inside ↦
        let here : slot t fd ≡ some f = rw (← e, inside) in
        let fewer : used (set t.fds fd none) + 1 ≡ used t.fds = used-set-none t.fds fd f here in
        record {
          files = record {
            count = omega (arith, fewer, p.files.count);
            in_range = omega (arith, length-set t.fds fd none, p.files.in_range);
          };
          size = length-set t.fds fd none ∙ p.size;
        }
    | inr outside ↦
        let nothing : fetch_file fd t ≡ none = rw outside in
        absurd (some_is_some f (sym e ∙ nothing))
  ]

  open_file-IsSound :
      (n fuel : ℕ) (f : F) (r : FdResult ℕ) (t u : Files F)
      → IsSound n t
      → n ≤ fuel
      → open_file fuel f t ≡ some (r, u)
      → IsSound n u
  unfolding open_file
  open_file-IsSound n fuel f r t u p enough e =
      elim (Bool-cases (leb (length t.fds) t.num_open_fds)) [
        | inl full ↦
            let run : open_file fuel f t ≡ some (err too_many_opens, t) = rw full in
            rw (← same_table (err too_many_opens) r t u (sym run ∙ e)) p
        | inr room ↦
            let o = open_file-Opened fuel f t p.files (ground arith) (omega (arith, p.size)) in
            rw (← same_table (ok o.fd) r o.after u (sym o.returns ∙ e))
              (record { files = o.keeps; size = o.size ∙ p.size })
      ]

  -- Whatever is opened and closed, and in whatever order, the count of open descriptors is the
  -- number of slots in use, the place at which the next search begins is in the table, and the table
  -- keeps its size. A client must be made with at least one descriptor.
  pub Reach-IsSound : (n : ℕ) (t : Files F) → 0 < n → Reach n t → IsSound n t
  unfolding init_files close
  Reach-IsSound n t h at_start = record {
    files = record {
      count = sym (used-replicate F n);
      in_range = omega (arith, length-replicate F n);
    };
    size = length-replicate F n;
  }
  Reach-IsSound n t h (after_open fuel f r s u p enough e) =
      open_file-IsSound n fuel f r s t (Reach-IsSound n s h p) enough e
  Reach-IsSound n t h (after_close fd s p) =
      freed-IsSound n fd s (fetch_file fd s) (Reach-IsSound n s h p) refl
