-- ===== src/Mds/Rpc/Answers.antt =====
-- A call's result is read as it was written, but for the names that Listdir leaves out.
use deltafs.Prelude.{
  ℕ, ◌+◌, ◌-◌, ◌%◌, ◌<◌, ◌≤◌, ◌≡◌, refl, ◌∙◌, sym, ap, leb, ltb, List, [], ◌∷◌, ◌++◌, some, Bytes,
  length, length-append, take, drop, All, arith, if◌then◌else◌, Bool-cases, inl, inr, false,
}
use mathlib.Core.Path.{ap₂}
use mathlib.Core.List.{append-nil, append_assoc}
use deltafs.Mds.Types.{u32_mod}
use deltafs.Mds.Rpc.Wire.{Wire, IsWire, IsStat, Parser, Reads, Reads-bind, Reads-last}
use deltafs.Mds.Rpc.Calls.{
  Call, fstat, lookup, listdir, readidx, fcreat, mkdir, chmod, unlink, chown, uperm, utime, trunc,
  opensession, getinput, getoutput, Ret, IsRet, IsName, Created, Session,
}
use deltafs.Mds.Rpc.Requests.{Reads-whole}
use deltafs.Mds.Rpc.Results.{
  write_names, put_names, read_names, get_names, put_created, get_flag, put_session, get_session,
  value, put_ret, get_ret,
}

module _ (w : Wire) where
  -- The names that fit: up to the one with which they take 1000 bytes.
  abbrev pub fitting : ℕ → List Bytes → List Bytes
  fitting size [] = []
  fitting size (name ∷ names) =
      let rest = fitting (size + length (w.put_slice name)) names in
      name ∷ (if leb 1000 (size + length (w.put_slice name)) then [] else rest)

  abbrev joined : List Bytes → Bytes
  joined [] = []
  joined (name ∷ names) = w.put_slice name ++ joined names

  write_names_lem :
      (names : List Bytes) (buf : Bytes) (num : ℕ)
      → let kept = fitting (length buf) names in
        write_names w names buf num ≡ (buf ++ joined kept, num + length kept)
  unfolding write_names
  write_names_lem [] buf num = rw (append-nil buf) (ap (λ (n : ℕ). (buf, n)) (omega arith))
  write_names_lem (name ∷ names) buf num =
      let slice = w.put_slice name in
      let len = length-append buf slice in
      let kept = fitting (length buf + length slice) names in
      elim (Bool-cases (leb 1000 (length buf + length slice))) [
        | inl e ↦
            rw (len, e)
              (ap₂ (λ (b : Bytes) (n : ℕ). (b, n)) (ap (λ t. buf ++ t) (sym (append-nil slice)))
                (omega arith))
        | inr e ↦
            rw (len, e)
              (write_names_lem names (buf ++ slice) (num + 1)
                ∙ rw (len, append_assoc buf slice (joined kept))
                    (ap (λ (n : ℕ). (buf ++ (slice ++ joined kept), n)) (omega arith)))
      ]

  read_names-joined :
      (l : IsWire w) (names : List Bytes)
      → All IsName names
      → read_names w (length names) (joined names) ≡ some names
  unfolding read_names
  read_names-joined l [] h = refl
  read_names-joined l (name ∷ names) h =
      rw (l.slice name h.0 (joined names), read_names-joined l names h.1)

  fitting-All :
      (P : Bytes → Type 0) (size : ℕ) (names : List Bytes)
      → All P names
      → All P (fitting size names)
  fitting-All P size [] h = tt
  fitting-All P size (name ∷ names) h =
      elim (Bool-cases (leb 1000 (size + length (w.put_slice name)))) [
        | inl e ↦ rw e (h.0, tt)
        | inr e ↦ rw e (h.0, fitting-All P (size + length (w.put_slice name)) names h.1)
      ]

  length-fitting : (size : ℕ) (names : List Bytes) → length (fitting size names) ≤ length names
  length-fitting size [] = omega arith
  length-fitting size (name ∷ names) =
      ground (arith, length-fitting (size + length (w.put_slice name)) names)

pub take-append : (xs ys : Bytes) → take (length xs) (xs ++ ys) ≡ xs
take-append [] [] = refl
take-append [] (y ∷ ys) = refl
take-append (x ∷ xs) ys = ap (λ zs. x ∷ zs) (take-append xs ys)

pub drop-append : (xs ys : Bytes) → drop (length xs) (xs ++ ys) ≡ ys
drop-append [] ys = refl
drop-append (x ∷ xs) ys = drop-append xs ys

module _ (w : Wire) (l : IsWire w) where
  put_names_lem :
      (names : List Bytes)
      → length names < u32_mod
      → let kept = fitting w 0 names in
        put_names w names ≡ joined w kept ++ w.put_fixed32 (length kept)
  unfolding put_names
  put_names_lem names h =
      let few = length-fitting w 0 names in
      let written = write_names_lem w names [] 0 in
      let count : (0 + length (fitting w 0 names)) % u32_mod ≡ length (fitting w 0 names) =
        omega arith in
      rw (written, count)

  get_names-append :
      (names count : Bytes)
      → length count ≡ 4
      → get_names w (names ++ count) ≡ read_names w (w.decode_fixed32 count) names
  unfolding get_names
  get_names-append names count h =
      let len : length (names ++ count) ≡ length names + 4 =
        omega (arith, length-append names count) in
      let enough : ltb (length names + 4) 4 ≡ false = ground arith in
      let start : length names + 4 - 4 ≡ length names = omega arith in
      rw (len, enough, start, take-append names count, drop-append names count)

  get_names-put_names :
      (names : List Bytes)
      → All IsName names
      → length names < u32_mod
      → get_names w (put_names w names) ≡ some (fitting w 0 names)
  get_names-put_names names h n =
      let kept = fitting w 0 names in
      let few = length-fitting w 0 names in
      let count = w.put_fixed32 (length kept) in
      rw
        (
          put_names_lem names n,
          get_names-append (joined w kept) count (l.length-fixed32 (length kept)),
        )
        (rw (l.fixed32 (length kept) (omega arith))
          (read_names-joined w l kept (fitting-All w IsName 0 names h)))

  get_created : (r : Created) → IsStat r.stat → get_flag w (w.get_stat (put_created w r)) ≡ some r
  unfolding put_created
  get_created r h = rw (l.stat r.stat h (r.created ∷ []))

  session-Reads : (r : Session) → IsRet opensession r → Reads (get_session w) r (put_session w r)
  unfolding get_session put_session
  session-Reads r h = Reads-bind w.get_slice _ r.env_name _ _ _ (l.slice r.env_name h.0) (
      Reads-bind w.get_slice _ r.env_conf _ _ _ (l.slice r.env_conf h.1) (
        Reads-bind w.get_slice _ r.fio_name _ _ _ (l.slice r.fio_name h.2) (
          Reads-bind w.get_slice _ r.fio_conf _ _ _ (l.slice r.fio_conf h.3)
            (Reads-last w.get_varint32 _ r.session_id _ (l.varint32 r.session_id h.4)))))

  value_whole :
      {A : Type 0} (p : Parser A) (a : A) (xs : Bytes) → Reads p a xs → value w (p xs) ≡ some a
  value_whole p a xs r = rw (Reads-whole w l p a xs r)

  -- What is left of a result on its way.
  abbrev pub fit : (c : Call) → Ret c → Ret c
  fit (listdir b) names = fitting w 0 names
  fit (fstat b) r = r
  fit (lookup b) r = r
  fit (readidx b) r = r
  fit (fcreat b o) r = r
  fit (mkdir b o) r = r
  fit (chmod b mode) r = r
  fit (unlink b flags) r = r
  fit (chown b o) r = r
  fit (uperm b o) r = r
  fit (utime b o) r = r
  fit (trunc b o) r = r
  fit opensession r = r
  fit getinput r = r
  fit getoutput r = r

  pub get_ret-put_ret :
      (c : Call) (r : Ret c) → IsRet c r → get_ret w c (put_ret w c r) ≡ some (fit c r)
  unfolding get_ret put_ret
  get_ret-put_ret (listdir b) r h = get_names-put_names r h.0 h.1
  get_ret-put_ret (fstat b) r h = value_whole w.get_stat r _ (l.stat r h)
  get_ret-put_ret (lookup b) r h = value_whole w.get_lookup_stat r _ (l.lookup_stat r h)
  get_ret-put_ret (readidx b) r h = refl
  get_ret-put_ret (fcreat b o) r h = get_created r h
  get_ret-put_ret (mkdir b o) r h = value_whole w.get_stat r _ (l.stat r h)
  get_ret-put_ret (chmod b mode) r h = value_whole w.get_stat r _ (l.stat r h)
  get_ret-put_ret (unlink b flags) r h = value_whole w.get_stat r _ (l.stat r h)
  get_ret-put_ret (chown b o) r h = value_whole w.get_stat r _ (l.stat r h)
  get_ret-put_ret (uperm b o) r h = value_whole w.get_stat r _ (l.stat r h)
  get_ret-put_ret (utime b o) r h = value_whole w.get_stat r _ (l.stat r h)
  get_ret-put_ret (trunc b o) r h = value_whole w.get_stat r _ (l.stat r h)
  get_ret-put_ret opensession r h = value_whole (get_session w) r _ (session-Reads r h)
  get_ret-put_ret getinput r h = value_whole w.get_slice r _ (l.slice r h)
  get_ret-put_ret getoutput r h = value_whole w.get_slice r _ (l.slice r h)
