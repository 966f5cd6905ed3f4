-- ===== src/Cli/Cached.antt =====
-- Lookups that the cache of src/libdeltafs/mds_cli.cc answers.
use deltafs.Prelude.{
  ℕ, ◌+◌, ◌%◌, ◌<◌, ◌≤◌, ◌≡◌, refl, Bool, true, false, ltb, ◌==◌, Bool-cases, inl, inr, Option,
  none, some, Bytes, arith,
}
use deltafs.Mds.Types.{DirId, u64_mod}
use deltafs.Mds.Rpc.Wire.{LookupStat}
use deltafs.Cli.State.{
  Lru, Common, CliConfig, Cli, Outside, Out, returned, failed, thrown, running, Do, bind, pure,
}
use deltafs.Cli.Find.{
  lookup_key, lookup, lookup_or_ask, ask_lookup, fetch_index, drop_if, about, due_of, paranoid_name,
}
use deltafs.Cli.Redirect.{send_lookup}

-- What is relied on of a cache: an entry is there after it is inserted and after it is found.
pub record IsLru {V : Type 0} (c : Lru V) : Type 0 where
  pub find_insert : (k : Bytes) (v : V) (s : c.Cache) → (c.find k (c.insert k v s)).0 ≡ some v
  pub find_again :
      (k : Bytes) (v : V) (s : c.Cache)
      → (c.find k s).0 ≡ some v
      → (c.find k (c.find k s).1).0 ≡ some v

-- A sequence that returns has returned at its first step.
pub bind-returned :
    {x : Common} {S A B : Type 0} (m : Out A × Cli x S) (f : A → Do x S B) (b : B) (t : Cli x S)
    → bind m f ≡ (returned b, t)
    → (a : A) × (s : Cli x S) × (m ≡ (returned a, s)) × (f a s ≡ (returned b, t))
bind-returned (returned a, s) f b t h = (a, s, refl, h)
bind-returned (failed e missing, s) f b t h = cc
bind-returned (thrown re, s) f b t h = cc
bind-returned (running, s) f b t h = cc

module _ (x : Common) {S : Type 0} (cfg : CliConfig) (out : Outside S) (fuel : ℕ) where
  abbrev Cached : DirId → Bytes → LookupStat → Cli x S → Type 0
  Cached pid name stat t =
      (x.lookups.find (lookup_key x pid (x.name_hash name)) t.lookup_cache).0 ≡ some stat

  -- The state after the cache has been looked at.
  abbrev pub looked : DirId → Bytes → Cli x S → Cli x S
  looked pid name s = record s {
    lookup_cache = (x.lookups.find (lookup_key x pid (x.name_hash name)) s.lookup_cache).1;
    world = (out.current_micros s.world).1;
  }

  returned-inj :
      (a b : LookupStat) (s t : Cli x S)
      → ◌≡◌ {A = Out LookupStat × Cli x S} (returned a, s) (returned b, t)
      → (a ≡ b) × (s ≡ t)
  returned-inj a b s t h = (cc, cc)

  drop_if-returned :
      (pid : DirId) (nhash : Bytes) (got stat : LookupStat) (b : Bool) (s t : Cli x S)
      → bind (drop_if x cfg out pid nhash b s) (λ _. pure got) ≡ (returned stat, t)
      → (got ≡ stat) × (b ≡ false → s ≡ t)
  drop_if-returned pid nhash got stat true s t h = (cc, λ e. cc)
  drop_if-returned pid nhash got stat false s t h = (cc, λ e. cc)

  -- What a server gave with a lease is in the cache.
  ask_lookup-Cached :
      (law : IsLru x.lookups) (pid : DirId) (name : Bytes) (zserver op_due : ℕ) (stat : LookupStat)
      (s t : Cli x S)
      → ask_lookup x cfg out fuel pid name zserver op_due s ≡ (returned stat, t)
      → 0 < stat.lease_due
      → Cached pid name stat t
  ask_lookup-Cached law pid name zserver op_due stat s t h p =
      let options = about cfg pid (due_of cfg op_due) (x.name_hash name) (paranoid_name cfg name) in
      let (idx, s1, _, h1) = bind-returned (fetch_index x cfg out pid zserver s) _ stat t h in
      let (got, s2, _, h2) =
        bind-returned (send_lookup x cfg out fuel idx options s1) _ stat t h1 in
      let (same, kept) =
        drop_if-returned pid (x.name_hash name) got stat (got.lease_due == 0) _ t h2 in
      let e : (got.lease_due == 0) ≡ false = rw same (ground arith) in
      rw (← kept e, ← same)
        (law.find_insert (lookup_key x pid (x.name_hash name)) got s2.lookup_cache)

  found-Cached :
      (law : IsLru x.lookups) (pid : DirId) (name : Bytes) (zserver op_due now : ℕ)
      (hit : Option LookupStat) (stat : LookupStat) (s t : Cli x S)
      → ((old : LookupStat) → hit ≡ some old → Cached pid name old s)
      → lookup_or_ask x cfg out fuel pid name zserver op_due now hit s ≡ (returned stat, t)
      → 0 < stat.lease_due
      → Cached pid name stat t
  found-Cached law pid name zserver op_due now none stat s t k h p =
      ask_lookup-Cached law pid name zserver op_due stat s t h p
  found-Cached law pid name zserver op_due now (some old) stat s t k h p =
      elim (Bool-cases (ltb old.lease_due ((now + 10) % u64_mod))) [
        | inl e ↦ ask_lookup-Cached law pid name zserver op_due stat s t (rw (← h, e)) p
        | inr e ↦ let (v, w) = returned-inj old stat s t (rw (← h, e)) in rw (← v, ← w) (k old refl)
      ]

  lookup-Cached :
      (law : IsLru x.lookups) (pid : DirId) (name : Bytes) (zserver op_due : ℕ) (stat : LookupStat)
      (s t : Cli x S)
      → lookup x cfg out fuel pid name zserver op_due s ≡ (returned stat, t)
      → 0 < stat.lease_due
      → Cached pid name stat t
  unfolding lookup
  lookup-Cached law pid name zserver op_due stat s t h p =
      found-Cached law pid name zserver op_due (out.current_micros s.world).0
        (x.lookups.find (lookup_key x pid (x.name_hash name)) s.lookup_cache).0 stat _ t
        (λ old e. law.find_again (lookup_key x pid (x.name_hash name)) old s.lookup_cache e) h p

  -- After a lookup that came with a lease, the next lookup of the name gives the same and asks no
  -- server, if the clock then reads at least 10 microseconds less than the lease's due time. Only
  -- the clock is read and the cache looked at.
  pub lookup-lookup :
      (law : IsLru x.lookups) (pid : DirId) (name : Bytes) (zserver op_due : ℕ) (stat : LookupStat)
      (s t : Cli x S)
      → lookup x cfg out fuel pid name zserver op_due s ≡ (returned stat, t)
      → 0 < stat.lease_due
      → stat.lease_due < u64_mod
      → (out.current_micros t.world).0 + 10 ≤ stat.lease_due
      → lookup x cfg out fuel pid name zserver op_due t ≡ (returned stat, looked pid name t)
  unfolding lookup
  lookup-lookup law pid name zserver op_due stat s t h p b l =
      let e : ltb stat.lease_due (((out.current_micros t.world).0 + 10) % u64_mod) ≡ false =
        ground arith in
      rw (lookup-Cached law pid name zserver op_due stat s t h p, e)
