-- ===== src/Mds/Isolation.antt =====
-- Readers while a write is going on in their directory. Fstat loads `d->tx` and reads without the
-- mutex of `MDS::SRV`, so that other work comes in between.
use deltafs.Prelude.{◌≡◌, Option, none, some}
use deltafs.Mds.Types.{Ext, DirId}
use deltafs.Mds.Db.{Tx}
use deltafs.Mds.Server.{Srv, Dir, find_dir}
use deltafs.Mds.Read.{load_tx}
use deltafs.Mds.Write.{publish_tx}

module _ (x : Ext) where
  -- The transaction that a directory's readers find.
  abbrev found_tx : Option (Dir x) → Option (Tx x)
  found_tx none = none
  found_tx (some d) = load_tx x d

  abbrev pub tx_of : DirId → Srv x → Option (Tx x)
  tx_of id s = found_tx (find_dir id s)

  -- The server, and a reader: what it has loaded, if it has.
  pub record Run : Type 0 where
    pub srv : Srv x
    pub loaded : Option (Option (Tx x))

  -- Any work on the server that leaves `d->tx` alone, such as the commit of the write, and the load
  -- of the reader.
  pub data Step (id : DirId) : Run → Run → Type 0 where
    works : (r : Run) (s : Srv x) → tx_of id s ≡ tx_of id r.srv → Step id r (record r { srv = s })
    loads : (r : Run) → Step id r (record r { loaded = some (tx_of id r.srv) })

  pub data Reach (id : DirId) (r : Run) : Run → Type 0 where
    here : Reach id r r
    next : {p q : Run} → Reach id r p → Step id p q → Reach id r q

  -- The write has published its transaction, and the reader has not loaded yet.
  abbrev pub published : Tx x → DirId → Srv x → Run
  published t id s = record { srv = publish_tx x t id s; loaded = none }

  abbrev Snapshot : Tx x → DirId → Run → Type 0
  Snapshot t id r =
      (tx_of id r.srv ≡ some t) × ((l : Option (Tx x)) → r.loaded ≡ some l → l ≡ some t)
