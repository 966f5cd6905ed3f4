-- ===== src/Tests/Rpc.antt =====
-- Calls over RPC at concrete inputs.
use deltafs.Prelude.{◌≡◌, refl, ◌∙◌, true, [], ◌∷◌, arith, length}
use deltafs.Mds.Types.{ok}
use deltafs.Mds.Server.{done}
use deltafs.Mds.Perm.{Waits}
use deltafs.Mds.Rpc.Wire
use deltafs.Mds.Rpc.Calls.{fstat, fcreat, BaseOptions, NewOptions, Created}
use deltafs.Mds.Rpc.Codec
use deltafs.Mds.Rpc.Peers.{cli_call, srv_call, Msg}
use deltafs.Mds.Rpc.Transparent.{cli_call-srv_call, IsReply, carried}
use deltafs.Mds.Rpc.Bounded.{OneCall, srv_call-OneCall}
use deltafs.Mds.Rpc.Server.{server}
use deltafs.Mds.Rpc.Remote.{remote, remote-fstat-fcreat}
use deltafs.Tests.Sample.{sample, sample-IsStore, root, config, answers, boot}
use deltafs.Tests.Wire.{symbols, symbols-IsWire}
use deltafs.Tests.Mds.{run_all, made, after_fcreat}

no_wait : Waits
no_wait = record { retries = []; keep = λ k. true; expired = 0 }

base : BaseOptions
base = record { dir_id = root; session_id = 1; op_due = 99; name_hash = 97 ∷ []; name = 97 ∷ [] }

fresh_file : NewOptions
fresh_file = record { flags = 0; mode = 420; uid = 1; gid = 2 }

created : Created
created = record { stat = made; created = 1 }

server_run :
    server sample config answers no_wait (fcreat base fresh_file) boot
    ≡ (done (ok created), after_fcreat)
unfolding run_all made base fresh_file created after_fcreat server
server_run = refl

created-IsReply :
    IsReply
      (fcreat base fresh_file)
      (server sample config answers no_wait (fcreat base fresh_file) boot).0
unfolding created made
created-IsReply = rw server_run (omega arith)

fits_fcreat : length (Codec.put_call symbols (fcreat base fresh_file)) ≡ 13
unfolding base fresh_file Codec.put_call Codec.put_named Codec.put_new Wire.put_dir_id
fits_fcreat = refl

fits_fstat : length (Codec.put_call symbols (fstat base)) ≡ 9
unfolding base Codec.put_call Codec.put_named Wire.put_dir_id
fits_fstat = refl

cli_call-srv_call_example :
    cli_call symbols true
      (srv_call symbols (server sample config answers no_wait))
      (fcreat base fresh_file)
      boot
    ≡ (
      carried symbols symbols-IsWire
          (fcreat base fresh_file)
          (server sample config answers no_wait (fcreat base fresh_file) boot).0,
      (server sample config answers no_wait (fcreat base fresh_file) boot).1,
    )
unfolding base fresh_file
cli_call-srv_call_example =
    cli_call-srv_call symbols symbols-IsWire true (server sample config answers no_wait)
      (fcreat base fresh_file) boot (omega arith) (omega (arith, fits_fcreat)) created-IsReply

remote_run :
    remote sample symbols true config answers no_wait (fcreat base fresh_file) boot
    ≡ (done (ok created), after_fcreat)
remote_run = cli_call-srv_call_example ∙ rw server_run

remote-fstat-fcreat_example :
    remote sample symbols true config answers no_wait (fstat base) after_fcreat
    ≡ (done (ok created.stat), after_fcreat)
unfolding base fresh_file after_fcreat run_all
remote-fstat-fcreat_example =
    remote-fstat-fcreat sample symbols symbols-IsWire sample-IsStore true config answers answers
      no_wait no_wait base fresh_file created boot after_fcreat (omega arith)
      (omega (arith, fits_fcreat)) (omega (arith, fits_fstat)) created-IsReply refl remote_run

garbled : Msg
garbled = record { op = 2; err = 0; contents = 1 ∷ 2 ∷ [] }

srv_call-OneCall_example :
    OneCall symbols
      (server sample config answers no_wait)
      boot
      garbled
      (srv_call symbols (server sample config answers no_wait) garbled boot)
srv_call-OneCall_example =
    srv_call-OneCall symbols (server sample config answers no_wait) boot garbled
