-- ===== src/Tests/Sample.antt =====
-- A key-value store that keeps its writes in order, one server, and a root directory.
use deltafs.Prelude.{ℕ, ◌≡◌, refl, true, List, [], ◌∷◌, ◌++◌, Option, none, some, Bytes}
use deltafs.Mds.Types.{
  Ext, Result, ok, err, not_found, DirId, Stat, RawKey, Update, put_node, del_node, put_raw,
  del_raw,
}
use deltafs.Mds.Laws.{IsStore, IsCoding, node_after, raw_after}
use deltafs.Mds.Server.{Config, Srv, Answers, init_srv}
use deltafs.Mds.Handler.{Options}
use deltafs.Mds.Write.{CreateOptions}

abbrev one_byte : Bytes → Option (ℕ × Bytes)
one_byte [] = none
one_byte (b ∷ bs) = some (b, bs)

abbrev pub sample : Ext
sample = record {
  Store = List Update;
  read_node = λ s d h. node_after s d h (err not_found);
  read_raw = λ s k. raw_after s k (err not_found);
  write = λ s us. (ok tt, s ++ us);
  list_names = λ s d n. [];
  put_varint64 = λ n. n ∷ [];
  put_varint32 = λ n. n ∷ [];
  get_varint64 = one_byte;
  get_varint32 = one_byte;
  Index = ℕ;
  name_hash = λ name. name;
  random_server = λ id. 0;
  split_index = λ n. n;
  new_index = 0;
  hash_to_server = λ index hash. index;
  encode_index = λ index. index ∷ [];
  update_index = λ index bytes. some index;
}

node_after-append :
    (s us : List Update) (d : DirId) (h : Bytes) (r : Result (Stat × Bytes))
    → node_after (s ++ us) d h r ≡ node_after us d h (node_after s d h r)
node_after-append [] us d h r = refl
node_after-append (put_node e i stat name ∷ s) us d h r = node_after-append s us d h _
node_after-append (del_node e i ∷ s) us d h r = node_after-append s us d h _
node_after-append (put_raw k v ∷ s) us d h r = node_after-append s us d h r
node_after-append (del_raw k ∷ s) us d h r = node_after-append s us d h r

raw_after-append :
    (s us : List Update) (k : RawKey) (r : Result Bytes)
    → raw_after (s ++ us) k r ≡ raw_after us k (raw_after s k r)
raw_after-append [] us k r = refl
raw_after-append (put_node e i stat name ∷ s) us k r = raw_after-append s us k r
raw_after-append (del_node e i ∷ s) us k r = raw_after-append s us k r
raw_after-append (put_raw j v ∷ s) us k r = raw_after-append s us k _
raw_after-append (del_raw j ∷ s) us k r = raw_after-append s us k _

pub sample-IsStore : IsStore sample
sample-IsStore = record {
  node_written = λ s s' us d h e.
      let same : s ++ us ≡ s' = cc in rw (← same) (node_after-append s us d h (err not_found));
  raw_written = λ s s' us k e.
      let same : s ++ us ≡ s' = cc in rw (← same) (raw_after-append s us k (err not_found));
}

pub sample-IsCoding : IsCoding sample
sample-IsCoding = record { varint64 = λ n rest h. refl; varint32 = λ n h. refl }

abbrev pub root : DirId
root = record { reg = 0; snap = 0; ino = 0 }

abbrev pub config : Config
config = record {
  paranoid_checks = true;
  lease_duration = 1000;
  snap_id = 0;
  reg_id = 0;
  srv_id = 0;
  num_servers = 2;
  num_virtual_servers = 1;
  env_name = [];
  env_conf = [];
  fio_name = [];
  fio_conf = [];
  input_conf = [];
  output_conf = [];
}

abbrev pub answers : Answers
answers = record {
  load_time = 5;
  start = 10;
  end = 20;
  dir_room = some (λ id. true);
  lease_room = some (λ k. true);
}

abbrev pub entry : Options
entry = record { dir_id = root; name_hash = 97 ∷ []; name = 97 ∷ [] }

abbrev pub new_entry : CreateOptions
new_entry = record { base = entry; flags = 0; mode = 420; uid = 1; gid = 2 }

abbrev pub boot : Srv sample
unfolding init_srv
boot = init_srv sample config []
