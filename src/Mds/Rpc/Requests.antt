-- ===== src/Mds/Rpc/Requests.antt =====
-- A call's options are read as they were written.
use deltafs.Prelude.{◌<◌, ◌≡◌, [], some, Bytes}
use mathlib.Core.List.{append-nil}
use deltafs.Mds.Rpc.Wire.{
  Wire, IsWire, Parser, Reads, Reads-bind, Reads-last, get_dir_id, dir_id-Reads,
}
use deltafs.Mds.Types.{u32_mod, u64_mod}
use deltafs.Mds.Rpc.Calls.{
  Call, BaseOptions, DirOptions, NewOptions, PermOptions, OwnerOptions, TimeOptions, SizeOptions,
  IsBase, IsDirOptions,
}
use deltafs.Mds.Rpc.Codec.{
  put_named, get_named, put_dir_options, get_dir_options, put_new, get_new, put_perm, get_perm,
  put_owner, get_owner, put_time, get_time, put_size, get_size, named,
}

module _ (w : Wire) (l : IsWire w) where
  pub named-Reads :
      {A : Type 0} (own : Parser A) (b : BaseOptions) (a : A) (xs : Bytes)
      → IsBase b
      → Reads own a xs
      → Reads (get_named w own) (b, a) (put_named w b xs)
  unfolding get_named put_named
  named-Reads own b a xs h r =
      Reads-bind (get_dir_id w) _ b.dir_id _ _ _ (dir_id-Reads w l b.dir_id h.0) (
        Reads-bind w.get_slice _ b.name_hash _ _ _ (l.slice b.name_hash h.3) (
          Reads-bind w.get_slice _ b.name _ _ _ (l.slice b.name h.4) (
            Reads-bind own _ a _ _ _ r (
              Reads-bind w.get_varint32 _ b.session_id _ _ _ (l.varint32 b.session_id h.1)
                (Reads-last w.get_varint64 _ b.op_due _ (l.varint64 b.op_due h.2))))))

  pub dir_options-Reads :
      (b : DirOptions) → IsDirOptions b → Reads (get_dir_options w) b (put_dir_options w b)
  unfolding get_dir_options put_dir_options
  dir_options-Reads b h =
      Reads-bind (get_dir_id w) _ b.dir_id _ _ _ (dir_id-Reads w l b.dir_id h.0) (
        Reads-bind w.get_varint32 _ b.session_id _ _ _ (l.varint32 b.session_id h.1)
          (Reads-last w.get_varint64 _ b.op_due _ (l.varint64 b.op_due h.2)))

  pub new-Reads :
      (o : NewOptions)
      → (o.flags < u32_mod) × (o.mode < u32_mod) × (o.uid < u32_mod) × (o.gid < u32_mod)
      → Reads (get_new w) o (put_new w o)
  unfolding get_new put_new
  new-Reads o h = Reads-bind w.get_varint32 _ o.flags _ _ _ (l.varint32 o.flags h.0) (
      Reads-bind w.get_varint32 _ o.mode _ _ _ (l.varint32 o.mode h.1) (
        Reads-bind w.get_varint32 _ o.uid _ _ _ (l.varint32 o.uid h.2)
          (Reads-last w.get_varint32 _ o.gid _ (l.varint32 o.gid h.3))))

  pub perm-Reads :
      (o : PermOptions)
      → (o.mode < u32_mod) × (o.uid < u32_mod) × (o.gid < u32_mod)
      → Reads (get_perm w) o (put_perm w o)
  unfolding get_perm put_perm
  perm-Reads o h = Reads-bind w.get_varint32 _ o.mode _ _ _ (l.varint32 o.mode h.0) (
      Reads-bind w.get_varint32 _ o.uid _ _ _ (l.varint32 o.uid h.1)
        (Reads-last w.get_varint32 _ o.gid _ (l.varint32 o.gid h.2)))

  pub owner-Reads :
      (o : OwnerOptions)
      → (o.uid < u32_mod) × (o.gid < u32_mod)
      → Reads (get_owner w) o (put_owner w o)
  unfolding get_owner put_owner
  owner-Reads o h =
      Reads-bind w.get_varint32 _ o.uid _ _ _ (l.varint32 o.uid h.0)
        (Reads-last w.get_varint32 _ o.gid _ (l.varint32 o.gid h.1))

  pub time-Reads :
      (o : TimeOptions)
      → (o.atime < u64_mod) × (o.mtime < u64_mod)
      → Reads (get_time w) o (put_time w o)
  unfolding get_time put_time
  time-Reads o h =
      Reads-bind w.get_varint64 _ o.atime _ _ _ (l.varint64 o.atime h.0)
        (Reads-last w.get_varint64 _ o.mtime _ (l.varint64 o.mtime h.1))

  pub size-Reads :
      (o : SizeOptions)
      → (o.mtime < u64_mod) × (o.size < u64_mod)
      → Reads (get_size w) o (put_size w o)
  unfolding get_size put_size
  size-Reads o h =
      Reads-bind w.get_varint64 _ o.mtime _ _ _ (l.varint64 o.mtime h.0)
        (Reads-last w.get_varint64 _ o.size _ (l.varint64 o.size h.1))

  -- A whole message is read.
  pub Reads-whole :
      {A : Type 0} (p : Parser A) (a : A) (xs : Bytes) → Reads p a xs → p xs ≡ some (a, [])
  Reads-whole p a xs r = rw (append-nil xs) at (r [])

  pub call-Reads :
      {A : Type 0} (call : BaseOptions → A → Call) (own : Parser A) (b : BaseOptions) (a : A)
      (xs : Bytes)
      → IsBase b
      → Reads own a xs
      → named w call own (put_named w b xs) ≡ some (call b a, [])
  call-Reads call own b a xs h r =
      rw (Reads-whole (get_named w own) (b, a) (put_named w b xs) (named-Reads own b a xs h r))
