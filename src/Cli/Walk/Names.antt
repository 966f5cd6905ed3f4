-- ===== src/Cli/Walk/Names.antt =====
-- The loop of ResolvePath in src/libdeltafs/mds_cli.cc on one name of a path.
use deltafs.Prelude.{
  ℕ, zero, suc, ◌≡◌, ◌≢◌, refl, sym, ◌∙◌, false, not, ◌==◌, [], ◌∷◌, ◌++◌, Bytes, All,
  if◌then◌else◌, arith, ap,
}
use mathlib.Core.List.{append_assoc, append-nil}
use deltafs.Mds.Types.{access_denied, not_supported}
use deltafs.Cli.State.{Common, CliConfig, Cli, Outside, returned, ◌>>=◌, bind, fail}
use deltafs.Cli.Resolve.{
  PathInfo, Walk, is_lookup_ok, is_plfs, slash, component, descend, scan, last_component, with_due,
}
use deltafs.Cli.Walk.{slashes, IsPlain, follow}

module _ (x : Common) {S : Type 0} (cfg : CliConfig) (out : Outside S) (fuel : ℕ) where
  abbrev pub here : Walk → PathInfo
  here w = with_due x cfg out fuel w.result w.lease_due w.depth

  scan-slashes :
      (k : ℕ) (seen input : Bytes) (w : Walk) (s : Cli x S)
      → scan x cfg out fuel seen [] (slashes k ++ input) w s
        ≡ scan x cfg out fuel (seen ++ slashes k) [] input w s
  unfolding scan component
  scan-slashes zero seen input w s = rw (append-nil seen)
  scan-slashes (suc k) seen input w s =
      scan-slashes k (seen ++ slash ∷ []) input w s
      ∙ rw (append_assoc seen (slash ∷ []) (slashes k))

  scan_name :
      (name seen read input : Bytes) (w : Walk) (s : Cli x S)
      → All (λ c. c ≢ slash) name
      → scan x cfg out fuel seen read (name ++ input) w s
        ≡ scan x cfg out fuel seen (read ++ name) input w s
  unfolding scan
  scan_name [] seen read input w s h = rw (append-nil read)
  scan_name (c ∷ name) seen read input w s h =
      let e : (c == slash) ≡ false = ground (arith, h.0) in
      rw (e, scan)
        (scan_name name seen (read ++ c ∷ []) input w s h.1 ∙ rw (append_assoc read (c ∷ []) name))

  scan-slash :
      (name seen input : Bytes) (w : Walk) (s : Cli x S)
      → scan x cfg out fuel seen name (slash ∷ input) w s
        ≡ (component x cfg out fuel (seen ++ name) name w >>= λ w'.
              scan x cfg out fuel (seen ++ (name ++ slash ∷ [])) [] input w')
            s
  unfolding scan
  scan-slash name seen input w s = refl

  pub component_plain :
      (k : ℕ) (name text : Bytes) (w : Walk) (s : Cli x S)
      → IsPlain (k, name)
      → component x cfg out fuel text name w s
        ≡ (if not (is_lookup_ok cfg w.result)
              then fail access_denied
              else if is_plfs w.result.mode
              then fail not_supported
              else descend x cfg out fuel text name w)
            s
  unfolding component
  component_plain k name text w s h = rw (h.0, h.2, h.3)

  pub last_component_plain :
      (k : ℕ) (name seen : Bytes) (w : Walk) (s : Cli x S)
      → IsPlain (k, name)
      → last_component x cfg out fuel (w, name) s
        ≡ follow x cfg out fuel seen [] (k, name) (here w) s
  unfolding last_component follow
  last_component_plain k name seen w s h = rw (h.0, h.2, h.3)

  -- The loop up to the end of one name.
  pub scan_one :
      (k : ℕ) (name seen input : Bytes) (w : Walk) (s : Cli x S)
      → All (λ c. c ≢ slash) name
      → scan x cfg out fuel seen [] (slashes k ++ (name ++ slash ∷ input)) w s
        ≡ bind
            (component x cfg out fuel ((seen ++ slashes k) ++ name) name w s)
            λ w'. scan x cfg out fuel ((seen ++ slashes k) ++ (name ++ slash ∷ [])) [] input w'
  scan_one k name seen input w s h =
      scan-slashes k seen (name ++ slash ∷ input) w s
      ∙ scan_name name (seen ++ slashes k) [] (slash ∷ input) w s h
      ∙ scan-slash name (seen ++ slashes k) input w s

  pub scan_last :
      (k : ℕ) (name seen : Bytes) (w : Walk) (s : Cli x S)
      → All (λ c. c ≢ slash) name
      → scan x cfg out fuel seen [] (slashes k ++ name) w s ≡ (returned (w, name), s)
  unfolding scan
  scan_last k name seen w s h =
      scan-slashes k seen name w s
      ∙ ap (λ t. scan x cfg out fuel (seen ++ slashes k) [] t w s) (sym (append-nil name))
      ∙ scan_name name (seen ++ slashes k) [] [] w s h
