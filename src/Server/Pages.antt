-- ===== src/Server/Pages.antt =====
-- How many messages an answer of src/server.rs to a pull has.
use enigma_relay.Base.{◌<◌, ◌≤◌, ◌≡◌, List, arith, ap, length, length-map}
use enigma_relay.Error.{ok}
use enigma_relay.Config.{Features}
use enigma_relay.Model.{PullRequest, PullResponse}
use enigma_relay.Limiter.{F64}
use enigma_relay.Store.{Base64, AckItem}
use enigma_relay.StoreMem.{mem_store}
use enigma_relay.StoreMem.Pull.Bounds.{length-pull-le}
use enigma_relay.Ttl.{now_millis}
use enigma_relay.Server.{Request, AppState}
use enigma_relay.Server.Inbound.{to_delivery}
use enigma_relay.Server.Handlers
use enigma_relay.Server.Answers.{pull-ok}

-- Over the store in memory, the answer to a pull has `pull_batch_max` messages at most, whatever the
-- client asks for, if `pull_batch_max` is positive.
pub length-items-le :
    (f : F64) (features : Features) (standard : Base64) (order : List AckItem → List AckItem)
    (req : Request) (s : AppState f (mem_store standard order) features) (body : PullRequest)
    (r : PullResponse)
    → 0 < s.config.relay.pull_batch_max
    → (Handlers.pull f (mem_store standard order) features standard req body s).0 ≡ ok r
    → length r.items ≤ s.config.relay.pull_batch_max
unfolding to_delivery
length-items-le f features standard order req s body r p e =
    let (limit, batch, _, _, small, taken, _, answer) =
      pull-ok f (mem_store standard order) features standard req s body r p e in
    let few =
      length-pull-le standard body.recipient body.cursor limit (now_millis req.time) s.store batch
        taken in
    omega (
      arith,
      small,
      few,
      length-map to_delivery batch.items,
      ap (λ (x : PullResponse). length x.items) answer,
    )
