-- ===== src/Cli/Walk/Agrees.antt =====
-- ResolvePath of src/libdeltafs/mds_cli.cc against the walk over the names of a path.
use deltafs.Prelude.{
  ℕ, ◌≡◌, refl, ◌∙◌, not, Bool-cases, inl, inr, List, [], ◌∷◌, ◌++◌, Option, none, some, Bytes, All,
  if◌then◌else◌,
}
use deltafs.Mds.Types.{access_denied, not_supported}
use deltafs.Mds.Rpc.Wire.{LookupStat}
use deltafs.Cli.State.{
  Common, CliConfig, Cli, Outside, Out, returned, failed, thrown, running, Do, ◌>>=◌, bind, pure,
  fail, Fentry,
}
use deltafs.Cli.Find.{lookup}
use deltafs.Cli.Resolve.{
  PathInfo, Walk, is_lookup_ok, is_plfs, slash, start, start_info, entered, missing_at, component,
  descend, scan, last_component, resolve_path,
}
use deltafs.Cli.Walk.{Spelled, slashes, spell_rest, spell, IsPlain, found, follow}
use deltafs.Cli.Walk.Names.{here, component_plain, last_component_plain, scan_one, scan_last}

module _ (x : Common) {S : Type 0} (cfg : CliConfig) (out : Outside S) (fuel : ℕ) where
  bind_assoc :
      {A B C : Type 0} (m : Out A × Cli x S) (f : A → Do x S B) (g : B → Do x S C)
      → bind (bind m f) g ≡ bind m λ a s. bind (f a s) g
  bind_assoc (returned a, s) f g = refl
  bind_assoc (failed e missing, s) f g = refl
  bind_assoc (thrown re, s) f g = refl
  bind_assoc (running, s) f g = refl

  bind_congr :
      {A B : Type 0} (m : Out A × Cli x S) (f g : A → Do x S B)
      → ((a : A) (s : Cli x S) → f a s ≡ g a s)
      → bind m f ≡ bind m g
  bind_congr (returned a, s) f g h = h a s
  bind_congr (failed e missing, s) f g h = refl
  bind_congr (thrown re, s) f g h = refl
  bind_congr (running, s) f g h = refl

  -- A directory of the path, in the source and in the walk.
  abbrev lookup_below : Bytes → Bytes → PathInfo → Do x S LookupStat
  lookup_below text name p s =
      missing_at text (lookup x cfg out fuel p.pid name p.zserver p.lease_due s)

  bind-descend :
      (name text : Bytes) (w : Walk) (s : Cli x S) (rest : Walk → Do x S PathInfo)
      (next : PathInfo → Do x S PathInfo)
      → ((stat : LookupStat) (t : Cli x S)
          → rest (entered name stat w) t ≡ next (found name stat (here x cfg out fuel w)) t)
      → bind (descend x cfg out fuel text name w s) rest
        ≡ bind
            (lookup_below text name (here x cfg out fuel w) s)
            λ stat. next (found name stat (here x cfg out fuel w))
  unfolding descend
  bind-descend name text w s rest next h =
      bind_assoc (lookup_below text name (here x cfg out fuel w) s)
        (λ stat. pure (entered name stat w)) rest
      ∙ bind_congr (lookup_below text name (here x cfg out fuel w) s) _
          (λ stat. next (found name stat (here x cfg out fuel w))) h

  bind-component :
      (k : ℕ) (name text : Bytes) (w : Walk) (s : Cli x S) (rest : Walk → Do x S PathInfo)
      (next : PathInfo → Do x S PathInfo)
      → IsPlain (k, name)
      → ((stat : LookupStat) (t : Cli x S)
          → rest (entered name stat w) t ≡ next (found name stat (here x cfg out fuel w)) t)
      → bind (component x cfg out fuel text name w s) rest
        ≡ (if not (is_lookup_ok cfg w.result)
              then fail access_denied
              else if is_plfs w.result.mode
              then fail not_supported
              else lookup_below text name (here x cfg out fuel w) >>= λ stat.
                  next (found name stat (here x cfg out fuel w)))
            s
  bind-component k name text w s rest next plain h =
      rw (component_plain x cfg out fuel k name text w s plain)
        (elim (Bool-cases (is_lookup_ok cfg w.result)) [
          | inl a ↦ elim (Bool-cases (is_plfs w.result.mode)) [
            | inl b ↦ rw (a, b)
            | inr b ↦ rw (a, b) (bind-descend name text w s rest next h)
          ]
          | inr a ↦ rw a
        ])

  abbrev after_name : ℕ → Bytes → Bytes → List Spelled → Spelled → Walk → Do x S (Walk × Bytes)
  after_name k name seen dirs entry w =
      scan x cfg out fuel ((seen ++ slashes k) ++ (name ++ slash ∷ [])) [] (spell_rest dirs entry) w

  scan-spell_rest :
      (dirs : List Spelled) (entry : Spelled) (seen : Bytes) (w : Walk) (s : Cli x S)
      → All IsPlain dirs
      → IsPlain entry
      → (scan x cfg out fuel seen [] (spell_rest dirs entry) w >>= last_component x cfg out fuel) s
        ≡ follow x cfg out fuel seen dirs entry (here x cfg out fuel w) s
  unfolding follow entered
  scan-spell_rest [] (k, name) seen w s hs h =
      rw (scan_last x cfg out fuel k name seen w s h.1)
        (last_component_plain x cfg out fuel k name seen w s h)
  scan-spell_rest ((k, name) ∷ dirs) entry seen w s hs h =
      rw (scan_one x cfg out fuel k name seen (spell_rest dirs entry) w s hs.0.1) (
        bind_assoc (component x cfg out fuel ((seen ++ slashes k) ++ name) name w s)
          (λ w'. after_name k name seen dirs entry w') (last_component x cfg out fuel)
        ∙ bind-component k name ((seen ++ slashes k) ++ name) w s
            (λ w'. after_name k name seen dirs entry w' >>= last_component x cfg out fuel)
            (follow x cfg out fuel ((seen ++ slashes k) ++ (name ++ slash ∷ [])) dirs entry) hs.0
            (λ stat t. scan-spell_rest dirs entry _ (entered name stat w) t hs.1 h))

  -- A path whose names are neither empty nor `.` nor `..` is resolved as the walk over its names,
  -- from the root or from an open directory, with any number of slashes between the names. So the
  -- result has the last name in the directory that the others lead to, and its lease is due when
  -- the first of the leases on the way is. The state of the client, an error, and the missing
  -- parent that is reported are those of the walk too.
  pub resolve_path-spell :
      (dirs : List Spelled) (entry : Spelled) (at : Option Fentry) (s : Cli x S)
      → All IsPlain dirs
      → IsPlain entry
      → resolve_path x cfg out fuel (spell dirs entry) at s
        ≡ follow x cfg out fuel (slash ∷ []) dirs entry (start_info at) s
  unfolding resolve_path
  resolve_path-spell dirs entry none s hs h =
      scan-spell_rest dirs entry (slash ∷ []) (start none) s hs h
  resolve_path-spell dirs entry (some at) s hs h =
      scan-spell_rest dirs entry (slash ∷ []) (start (some at)) s hs h
