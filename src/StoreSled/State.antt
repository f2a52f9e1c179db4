-- ===== src/StoreSled/State.antt =====
-- src/store_sled.rs: the state of the store on disk, the trees that it opens.
use enigma_relay.Base.{ℕ}
use enigma_relay.Base.Text.{Text}
use enigma_relay.Error.{Result, ok, ◌>>=◌}
use enigma_relay.StoreSled.Db.{or_storage, Sled}

pub record QuotaValue : Type 0 where
  pub bytes : ℕ
  pub count : ℕ

-- The derived `Default`.
abbrev pub default_quota : QuotaValue
default_quota = record { bytes = 0; count = 0 }

module _ (sled : Sled) where
  pub record SledStore : Type 0 where
    pub messages : sled.Tree
    pub index : sled.Tree
    pub quota : sled.Tree
    pub seq : sled.Tree

  unfoldable pub new : Text → Result SledStore
  new path = do
    db ← or_storage (sled.open_db path)
    messages ← or_storage (sled.open_tree "messages" db)
    index ← or_storage (sled.open_tree "index" db)
    quota ← or_storage (sled.open_tree "quota" db)
    seq ← or_storage (sled.open_tree "seq" db)
    ok (record { messages = messages; index = index; quota = quota; seq = seq })
