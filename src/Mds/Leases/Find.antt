-- ===== src/Mds/Leases/Find.antt =====
-- What the operations on leases do to the lease of one entry.
use deltafs.Prelude.{ℕ, ◌≡◌, refl, inl, inr, true, some, arith, bytes_eq_sound, bytes_eq_refl}
use deltafs.Mds.Types.{Ext, DirId, dir_id_eq_sound, dir_id_eq_refl}
use deltafs.Mds.Table.{
  find-put_self, find-insert_self, find-insert_pinned, insert, Inserted-cases, inserted,
}
use deltafs.Mds.Server.{
  Srv, Dir, Lease, LeaseKey, Answers, lease_key_eq, find_lease, put_lease, insert_lease, put_dir,
  busy,
}
use deltafs.Mds.Handler.{change_dir}
use deltafs.Mds.Frame.{change_dir-SameRest}

lease_key_eq_sound : (j k : LeaseKey) → lease_key_eq j k ≡ true → j ≡ k
unfolding lease_key_eq
lease_key_eq_sound (d, h) (e, i) p = ground (arith, dir_id_eq_sound d e, bytes_eq_sound h i)

lease_key_eq_refl : (k : LeaseKey) → lease_key_eq k k ≡ true
unfolding lease_key_eq
lease_key_eq_refl (d, h) = rw (dir_id_eq_refl, bytes_eq_refl)

module _ {x : Ext} where
  pub find_lease-put_lease :
      (k : LeaseKey) {l : Lease} (m : Lease) (s : Srv x)
      → find_lease k s ≡ some l
      → find_lease k (put_lease k m s) ≡ some m
  unfolding find_lease put_lease
  find_lease-put_lease k {l} m s h =
      find-put_self lease_key_eq lease_key_eq_refl k {w = l} m s.leases h

  pub find_lease-put_dir :
      (k : LeaseKey) (id : DirId) (d : Dir x) (s : Srv x)
      → find_lease k (put_dir id d s) ≡ find_lease k s
  unfolding find_lease put_dir
  find_lease-put_dir k id d s = refl

  pub find_lease-change_dir :
      (k : LeaseKey) (f : Dir x → Dir x) (id : DirId) (s : Srv x)
      → find_lease k (change_dir x f id s) ≡ find_lease k s
  unfolding find_lease
  find_lease-change_dir k f id s = rw (change_dir-SameRest f id s).leases

  pub find_lease-insert_lease :
      (a : Answers) (now : ℕ) (k : LeaseKey) (l : Lease) (s t : Srv x)
      → insert_lease a now k l s ≡ inserted t
      → find_lease k t ≡ some l
  unfolding find_lease insert_lease
  find_lease-insert_lease a now k l s t h =
      elim (Inserted-cases (insert lease_key_eq a.lease_room (busy now) k l s.leases)) [
        | inl e ↦ ground arith
        | inr (inl e) ↦ ground arith
        | inr (inr (u, e)) ↦ ground (
          arith,
          find-insert_self lease_key_eq lease_key_eq_refl a.lease_room (busy now) k l s.leases
              {u = u} e,
        )
      ]

  -- A lease that is busy stays when another one is inserted.
  pub insert_lease_keeps :
      (a : Answers) (now : ℕ) (k j : LeaseKey) (l m : Lease) (s t : Srv x)
      → insert_lease a now j m s ≡ inserted t
      → find_lease k s ≡ some l
      → busy now l ≡ true
      → find_lease k t ≡ some l
  unfolding find_lease insert_lease
  insert_lease_keeps a now k j l m s t h f b =
      elim (Inserted-cases (insert lease_key_eq a.lease_room (busy now) j m s.leases)) [
        | inl e ↦ ground arith
        | inr (inl e) ↦ ground arith
        | inr (inr (u, e)) ↦
            let stays =
              find-insert_pinned lease_key_eq lease_key_eq_sound a.lease_room (busy now) j k m l
                s.leases u e f b in
            ground arith
      ]
