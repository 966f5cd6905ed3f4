-- ===== src/Tests/Perm.antt =====
-- A change of permissions at a concrete input.
use deltafs.Prelude.{◌≡◌, refl, arith, Bytes}
use deltafs.Mds.Types.{ok, Stat, file_type, access_perms}
use deltafs.Mds.Db.{Session}
use deltafs.Mds.Write.{writing}
use deltafs.Mds.Perm.{UpermOptions, uperm_io, non_mod}
use deltafs.Mds.Permitted.{uperm_io-access_perms}
use deltafs.Tests.Sample.{sample, sample-IsStore, config, entry}
use deltafs.Tests.Mds.{run_all, made, after_fcreat, root_dir}

private_mode : UpermOptions
private_mode = record { base = entry; mode = 384; uid = non_mod; gid = non_mod }

restricted : Stat
restricted = record made { file_mode = 33152; change_time = 30 }

after_uperm_io : Session sample
after_uperm_io = (uperm_io sample config private_mode 30 root_dir (writing sample after_fcreat)).1

uperm_io_run :
    uperm_io sample config private_mode 30 root_dir (writing sample after_fcreat)
    ≡ (ok restricted, after_uperm_io)
unfolding run_all made after_fcreat root_dir private_mode restricted after_uperm_io uperm_io
uperm_io_run = refl

uperm_io-access_perms_example :
    (stat : Stat) × (name : Bytes) × (sample.read_node after_fcreat.store private_mode.dir_id
        private_mode.name_hash
      ≡ ok (stat, name))
    × (sample.read_node after_uperm_io.store private_mode.dir_id private_mode.name_hash
        ≡ ok (restricted, name))
    × (file_type restricted.file_mode ≡ file_type stat.file_mode)
    × (access_perms restricted.file_mode ≡ access_perms private_mode.mode)
uperm_io-access_perms_example =
    uperm_io-access_perms sample sample-IsStore config private_mode 30 root_dir restricted
      after_fcreat after_uperm_io (unfold private_mode in λ e. omega arith) uperm_io_run
