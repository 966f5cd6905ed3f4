-- ===== src/Client/Clean.antt =====
-- What ExpandPath of src/libdeltafs/deltafs_client.cc gives to ResolvePath of mds_cli.cc.
use deltafs.Prelude.{
  ℕ, zero, suc, ◌+◌, ◌≤◌, ◌≡◌, ◌≢◌, refl, sym, ◌∙◌, Bool, true, false, ◌&&◌, ltb, ◌==◌, Bool-cases,
  ◌⊎◌, inl, inr, [], ◌∷◌, ◌++◌, Option, none, some, Bytes, is_empty, length, if◌then◌else◌, arith,
}
use deltafs.Mds.Types.{Result, ok, err, invalid_argument}
use deltafs.Cli.Resolve.{slash}
use deltafs.Client.Paths.{
  Places, begins_with_slash, ends_with_slash, chop, has_tail_slash, trim, trimmed, sanitize_path,
  below_root, below_dir, placed, expanded, expand_path,
}

length-chop : (c : ℕ) (cs : Bytes) → length (chop (c ∷ cs)) ≡ length cs
length-chop c [] = refl
length-chop c (d ∷ cs) = omega (arith, length-chop d cs)

-- The loop takes all slashes off the end, but for the first character.
has_tail_slash-trim :
    (fuel : ℕ) (path : Bytes) → length path ≤ fuel + 1 → has_tail_slash (trim fuel path) ≡ false
unfolding trim
has_tail_slash-trim zero [] h = refl
has_tail_slash-trim zero (c ∷ []) h = refl
has_tail_slash-trim zero (c ∷ d ∷ cs) h = absurd (omega arith)
has_tail_slash-trim (suc fuel) [] h = refl
has_tail_slash-trim (suc fuel) (c ∷ cs) h = elim (Bool-cases (has_tail_slash (c ∷ cs))) [
  | inl e ↦ rw e (has_tail_slash-trim fuel (chop (c ∷ cs)) (omega (arith, length-chop c cs)))
  | inr e ↦ rw (e, e)
]

-- A longer path keeps its first character.
ends_with_slash-append :
    (xs : Bytes) (y : ℕ) (ys : Bytes) → ends_with_slash (xs ++ y ∷ ys) ≡ ends_with_slash (y ∷ ys)
ends_with_slash-append [] y ys = refl
ends_with_slash-append (x ∷ []) y ys = refl
ends_with_slash-append (x ∷ z ∷ xs) y ys = ends_with_slash-append (z ∷ xs) y ys

begins_with_slash-append :
    (xs ys : Bytes) → begins_with_slash xs ≡ true → begins_with_slash (xs ++ ys) ≡ true
begins_with_slash-append [] ys h = cc
begins_with_slash-append (x ∷ xs) ys h = h

-- What ResolvePath requires of a path.
pub record IsResolvable (path : Bytes) : Type 0 where
  pub absolute : begins_with_slash path ≡ true
  pub clean : has_tail_slash path ≡ false

abbrev pub IsAbsolute : Option Bytes → Type 0
IsAbsolute none = Unit {0}
IsAbsolute (some path) = begins_with_slash path ≡ true

-- A path that is not just a slash and has none at its end after the first character.
clean_end :
    (path : Bytes) → has_tail_slash path ≡ false → path ≢ slash ∷ [] → ends_with_slash path ≡ false
clean_end [] h n = refl
clean_end (c ∷ []) h n = elim (Bool-cases (c == slash)) [
  | inl e ↦ let same : c ≡ slash = ground arith in absurd (n (rw same))
  | inr e ↦ e
]
clean_end (c ∷ d ∷ cs) h n =
    let long : ltb 1 (length (c ∷ d ∷ cs)) ≡ true = ground arith in
    let same : has_tail_slash (c ∷ d ∷ cs) ≡ ends_with_slash (d ∷ cs) = rw long in sym same ∙ h

and_false : (b : Bool) → (b && false) ≡ false
and_false true = refl
and_false false = refl

no_tail : (path : Bytes) → ends_with_slash path ≡ false → has_tail_slash path ≡ false
no_tail path h = rw h (and_false (ltb 1 (length path)))

appended :
    (xs : Bytes) (y : ℕ) (ys : Bytes)
    → begins_with_slash xs ≡ true
    → ends_with_slash (y ∷ ys) ≡ false
    → IsResolvable (xs ++ y ∷ ys)
appended xs y ys h e = record {
  absolute = begins_with_slash-append xs (y ∷ ys) h;
  clean = no_tail (xs ++ y ∷ ys) (ends_with_slash-append xs y ys ∙ e);
}

rooted :
    (root : Option Bytes) (c : ℕ) (cs : Bytes)
    → IsAbsolute root
    → ((c ∷ cs) ≢ slash ∷ []) ⊎ (root ≡ none)
    → has_tail_slash (c ∷ cs) ≡ false
    → begins_with_slash (c ∷ cs) ≡ true
    → IsResolvable (below_root root (c ∷ cs))
rooted none c cs a n h e = record { absolute = e; clean = h }
rooted (some root) c cs a (inl n) h e = appended root c cs a (clean_end (c ∷ cs) h n)
rooted (some root) c cs a (inr n) h e = absurd (cc)

in_dir :
    (dir : Option Bytes) (c : ℕ) (cs : Bytes)
    → IsAbsolute dir
    → ends_with_slash (c ∷ cs) ≡ false
    → IsResolvable (below_dir dir (c ∷ cs))
in_dir none c cs a e = appended (slash ∷ []) c cs refl e
in_dir (some dir) c cs a e = appended dir slash (c ∷ cs) a e

not_slash : (c : ℕ) (cs : Bytes) → (c == slash) ≡ false → (c ∷ cs) ≢ slash ∷ []
not_slash c cs e same = let one : c ≡ slash = cc in ground arith

placed-IsResolvable :
    (p : Places) (c : ℕ) (cs : Bytes)
    → IsAbsolute p.curroot
    → IsAbsolute p.curdir
    → ((c ∷ cs) ≢ slash ∷ []) ⊎ (p.curroot ≡ none)
    → has_tail_slash (c ∷ cs) ≡ false
    → IsResolvable (placed p (c ∷ cs))
placed-IsResolvable p c cs r d n h = elim (Bool-cases (c == slash)) [
  | inl e ↦ rw e (rooted p.curroot c cs r n h e)
  | inr e ↦ rw e (in_dir p.curdir c cs d (clean_end (c ∷ cs) h (λ same. not_slash c cs e same)))
]

is_empty-trim :
    (fuel : ℕ) (path : Bytes) → is_empty path ≡ false → is_empty (trim fuel path) ≡ false
unfolding trim
is_empty-trim zero path h = h
is_empty-trim (suc fuel) [] h = h
is_empty-trim (suc fuel) (c ∷ []) h = refl
is_empty-trim (suc fuel) (c ∷ d ∷ cs) h = elim (Bool-cases (has_tail_slash (c ∷ d ∷ cs))) [
  | inl e ↦ rw e (is_empty-trim fuel (chop (c ∷ d ∷ cs)) refl)
  | inr e ↦ rw e
]

-- ExpandPath has given a path that ResolvePath takes.
abbrev pub Resolvable : Result Bytes → Type 0
Resolvable r = (full : Bytes) × (r ≡ ok full) × IsResolvable full

trimmed-Resolvable :
    (p : Places) (t : Bytes)
    → IsAbsolute p.curroot
    → IsAbsolute p.curdir
    → (t ≢ slash ∷ []) ⊎ (p.curroot ≡ none)
    → is_empty t ≡ false
    → has_tail_slash t ≡ false
    → Resolvable (expanded p (if is_empty t then err invalid_argument else ok t))
trimmed-Resolvable p [] r d n full h = absurd cc
trimmed-Resolvable p (c ∷ cs) r d n full h =
    (placed p (c ∷ cs), refl, placed-IsResolvable p c cs r d n h)

-- A path that is not empty is expanded to what ResolvePath requires: it begins with a slash, and
-- does not end with one unless that is all of it. The current root and directory, where set, are
-- absolute, and with a current root the path that comes in is not the root itself, with or without
-- more slashes.
pub expand_path-Resolvable :
    (p : Places) (path : Bytes)
    → IsAbsolute p.curroot
    → IsAbsolute p.curdir
    → (trimmed path ≢ slash ∷ []) ⊎ (p.curroot ≡ none)
    → is_empty path ≡ false
    → Resolvable (expand_path p path)
unfolding expand_path sanitize_path
expand_path-Resolvable p path r d n full =
    trimmed-Resolvable p (trimmed path) r d n (is_empty-trim (length path) path full)
      (has_tail_slash-trim (length path) path (omega arith))
