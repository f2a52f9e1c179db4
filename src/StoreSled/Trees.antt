-- ===== src/StoreSled/Trees.antt =====
-- src/store_sled.rs: what the store on disk calls on its trees. `Action` is `?` in a body that
-- writes.
use enigma_relay.Base.{Option, none, some, List, [], ◌∷◌}
use enigma_relay.Base.Text.{Text}
use enigma_relay.Error.{ok, err, from_sled}
use enigma_relay.Error.Action.{Action, ◌>>=◌, lift}
use enigma_relay.StoreSled.Db.{Bytes, Attempt, done, failed, or_internal, or_storage, Sled, Json}
use enigma_relay.StoreSled.Keys.{quota_key}
use enigma_relay.StoreSled.State.{QuotaValue, default_quota, SledStore}

-- The fields of `SledStore`.
pub data Column : Type 0 where
  messages : Column
  index : Column
  quota : Column
  seq : Column

module _ (sled : Sled) where
  abbrev pub tree : Column → SledStore sled → sled.Tree
  tree Column.messages store = store.messages
  tree Column.index store = store.index
  tree Column.quota store = store.quota
  tree Column.seq store = store.seq

  abbrev pub with_tree : Column → sled.Tree → SledStore sled → SledStore sled
  with_tree Column.messages t store = record store { messages = t }
  with_tree Column.index t store = record store { index = t }
  with_tree Column.quota t store = record store { quota = t }
  with_tree Column.seq t store = record store { seq = t }

  abbrev pub written : Column → Attempt sled.Tree → Action (SledStore sled) (Unit {0})
  written column (done t) store = (ok tt, with_tree column t store)
  written column (failed text) store = (err (from_sled text), store)

  -- The calls on a tree, with `?` after them.
  unfoldable pub get : Column → Bytes → Action (SledStore sled) (Option Bytes)
  get column key store = (or_storage (sled.get key (tree column store)), store)

  unfoldable pub insert : Column → Bytes → Bytes → Action (SledStore sled) (Unit {0})
  insert column key value store = written column (sled.insert key value (tree column store)) store

  unfoldable pub remove : Column → Bytes → Action (SledStore sled) (Unit {0})
  remove column key store = written column (sled.remove key (tree column store)) store

  unfoldable pub flush : Column → Action (SledStore sled) (Unit {0})
  flush column store = (or_storage (sled.flush_async (tree column store)), store)

  abbrev pub trees : List Column → SledStore sled → List sled.Tree
  trees [] store = []
  trees (column ∷ columns) store = tree column store ∷ trees columns store

  -- `(&t1, …, &tn).transaction(body)`, with its error as that of the caller.
  unfoldable pub transaction :
      {A : Type 0} → List Column → Action (SledStore sled) A → Action (SledStore sled) A
  transaction columns body = sled.transaction (trees columns) body

  -- `serde_json`, with `?` after it.
  abbrev pub decoded {ℓ} : {A : Type ℓ} → Attempt A → Action (SledStore sled) A
  decoded attempt = lift (or_internal attempt)

  module _ (quotas : Json QuotaValue) where
    unfoldable pub read_quota_tree : Bytes → Action (SledStore sled) QuotaValue
    read_quota_tree key = get Column.quota key >>= λ found. elim found [
      | none ↦ lift (ok default_quota)
      | some val ↦ decoded (quotas.from_slice val)
    ]

    unfoldable pub read_quota_tx : Bytes → Action (SledStore sled) QuotaValue
    read_quota_tx key = get Column.quota key >>= λ found. elim found [
      | some val ↦ decoded (quotas.from_slice val)
      | none ↦ lift (ok default_quota)
    ]

    unfoldable pub read_quota_latest : Text → Action (SledStore sled) QuotaValue
    read_quota_latest recipient = read_quota_tree (quota_key recipient)
