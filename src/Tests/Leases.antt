-- ===== src/Tests/Leases.antt =====
-- A lease that is given, waited for and retired, in a server with one directory entry.
use deltafs.Prelude.{ℕ, ◌≡◌, refl, true, [], ◌∷◌, All, arith, bytes_eq}
use deltafs.Mds.Types.{dir_id_eq}
use deltafs.Mds.Table
use deltafs.Mds.Server.{Srv, Dir, Lease, lease_locked, LeaseKey, find_dir, find_lease}
use deltafs.Mds.Server
use deltafs.Mds.Read
use deltafs.Mds.Perm.{Waits, block_readers, publish}
use deltafs.Mds.Perm
use deltafs.Mds.Leases.Protocol.{
  Watch, Reach, here, next, waits, works_elsewhere, looks_up, blocks, publishes_after_sleep,
  started, looked_up, republish, Reach-Retired,
}
use deltafs.Mds.Leases.Safety.{Retired}
use deltafs.Tests.Sample.{sample, root, config, answers}
use deltafs.Tests.Mds.{run_all, after_fcreat, root_dir}

run_leases : ℕ
unfolding bytes_eq dir_id_eq Table.find Table.put Table.retain Table.insert Server.lease_key_eq
    Server.busy find_dir Server.put_dir find_lease Server.put_lease Server.insert_lease
    Server.release_dropped Server.release_parent Server.dir_busy Read.extend_lease Read.issue_lease
    Perm.ensure_lease Perm.lock_lease block_readers publish
run_leases = 0

name : LeaseKey
name = (root, 97 ∷ [])

sleep : Waits
sleep = record { retries = []; keep = λ k. true; expired = 1030 }

ready : Watch sample
ready = record { srv = after_fcreat; now = 20; changed = 0; published = 0; granted = [] }

leased : Watch sample
leased = looked_up config name ready answers 0

locked : Watch sample
locked = record leased { srv = (block_readers sample answers sleep name 20 leased.srv).1 }

late : Watch sample
late = record locked { now = 1030 }

shared_dir : Dir sample
shared_dir = record root_dir { num_leases = 1 }

last : Watch sample
last = republish config name late late.srv shared_dir

the_lease : Lease
the_lease = record { seq = 0; parent = root; due = 1020; state = lease_locked }

reaches_ready : Reach config name (started config name [] 20) ready
unfolding run_all run_leases name ready after_fcreat
reaches_ready = next here (works_elsewhere (started config name [] 20) after_fcreat refl)

reaches_leased : Reach config name (started config name [] 20) leased
unfolding ready leased
reaches_leased =
    next reaches_ready (looks_up ready answers 0 refl (omega arith) refl (λ e. omega arith))

reaches_locked : Reach config name (started config name [] 20) locked
unfolding run_all run_leases name ready after_fcreat leased locked sleep root_dir
reaches_locked = next reaches_leased (blocks leased answers sleep locked.srv refl)

reaches_last : Reach config name (started config name [] 20) last
unfolding run_all run_leases name ready after_fcreat leased locked sleep root_dir late shared_dir
    last the_lease
reaches_last =
    next (next reaches_locked (waits locked 1030 (omega arith) (omega arith)))
      (publishes_after_sleep late shared_dir the_lease refl refl refl (omega arith))

granted_last : last.granted ≡ (0, 1020) ∷ []
unfolding run_all run_leases name ready after_fcreat leased locked sleep root_dir late shared_dir
    last
granted_last = refl

Reach-Retired_example : All (Retired last.changed last.published) last.granted
Reach-Retired_example =
    Reach-Retired config name [] 20 last (omega arith) (omega arith) reaches_last
