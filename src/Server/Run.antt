-- ===== src/Server/Run.antt =====
-- A server of src/server.rs over the store in memory: any sequence of requests and of ticks of the
-- collector.
use enigma_relay.Base.{
  ℕ, ◌≤◌, ◌<◌, ◌≡◌, ap, ◌∙◌, inl, inr, Option, some, List, map, arith, length, u64_max, length-map,
}
use enigma_relay.Base.Text.{Text}
use enigma_relay.Base.Eq.{list_eq, nat_eq}
use enigma_relay.Base.Map.{lookup}
use enigma_relay.Error.{ok}
use enigma_relay.Config.{Features, RelayConfig}
use enigma_relay.Model.{PushRequest, PullRequest, AckRequest}
use enigma_relay.Limiter.{F64}
use enigma_relay.Store.{Base64, AckItem}
use enigma_relay.Ttl.{now_millis, run_tick}
use enigma_relay.StoreMem.{mem_store}
use enigma_relay.StoreMem.State.{RecipientState, MemStore, new}
use enigma_relay.StoreMem.Push.{entry_or_default}
use enigma_relay.StoreMem.Ack.Refines.{Arranges}
use enigma_relay.StoreMem.Wf.{total_bytes}
use enigma_relay.StoreMem.Invariant.{IsValid}
use enigma_relay.StoreMem.Run.{push_step, pull_step, ack_step, purge_step, Reach-IsValid}
use enigma_relay.StoreMem.Run.Quota.{Limited, Limited-le, Limited-Reach}
use enigma_relay.Server.{Request, AppState, gc_tick}
use enigma_relay.Server.Start.{initial_state}
use enigma_relay.Server.Inbound.{build-recipient}
use enigma_relay.Server.Handlers
use enigma_relay.Server.Handlers.{to_item}
use enigma_relay.Server.Effects.{Leaves, push-Leaves, pull-Leaves, ack-Leaves}

module _ (f : F64) (features : Features) (standard : Base64)
    (order : List AckItem → List AckItem) where
  abbrev pub Server : Type 0
  Server = AppState f (mem_store standard order) features

  -- A request or a tick. A push assumes that the recipient has not used up the u64 sequence numbers;
  -- the items of an acknowledgement fit in memory.
  pub data Serve (s : Server) : Server → Type 0 where
    push_served :
        (req : Request) (body : PushRequest)
        → (entry_or_default body.recipient s.store).seq < u64_max
        → Serve s (Handlers.push f (mem_store standard order) features standard req body s).1
    pull_served :
        (req : Request) (body : PullRequest)
        → Serve s (Handlers.pull f (mem_store standard order) features standard req body s).1
    ack_served :
        (req : Request) (body : AckRequest)
        → length body.ack ≤ u64_max
        → Serve s (Handlers.ack f (mem_store standard order) features standard req body s).1
    gc_ticked : (time : Option ℕ) → Serve s (gc_tick f (mem_store standard order) features time s)

  pub data Serves (cfg : RelayConfig) : Server → Type 0 where
    started :
        {s : Server} (now : ℕ)
        → initial_state f (mem_store standard order) features now new cfg ≡ ok s
        → Serves cfg s
    served : {s t : Server} → Serves cfg s → Serve s t → Serves cfg t

  -- The server has the configuration, and a store under its limits.
  record Keeps (cfg : RelayConfig) (s : Server) : Type 0 where
    config : s.config ≡ cfg
    limited : Limited cfg.relay standard s.store

  start-Keeps :
      (now : ℕ) (cfg : RelayConfig) (s : Server)
      → initial_state f (mem_store standard order) features now new cfg ≡ ok s
      → Keeps cfg s
  unfolding initial_state
  start-Keeps now cfg s e =
      let fields : (s.config ≡ cfg) × (s.store ≡ new) = ground arith in
      record { config = fields.0; limited = rw fields.1 Limited.start }

  module _ (arranges : Arranges order) (cfg : RelayConfig)
      (bytes : cfg.relay.max_queue_bytes_per_user < u64_max) where
    Leaves-Keeps :
        (store : MemStore) (s s' : Server)
        → Limited cfg.relay standard store
        → Keeps cfg s
        → Leaves f (mem_store standard order) features store s s'
        → Keeps cfg s'
    Leaves-Keeps store s s' l k h = record { config = h.config ∙ k.config; limited = rw h.stored l }

    Serve-Keeps : {s t : Server} → Serve s t → Keeps cfg s → Keeps cfg t
    unfolding gc_tick run_tick
    Serve-Keeps {s = s} (push_served req body room) k =
        elim (push-Leaves f (mem_store standard order) features standard req s body) [
          | inl h ↦ Leaves-Keeps s.store s _ k.limited k h
          | inr (msg, built, h) ↦
              let same =
                build-recipient standard (now_millis req.time) body s.config.relay msg built in
              Leaves-Keeps _ s _
                (Limited.next k.limited
                  (push_step msg s.config.relay (rw same room) (rw k.config bytes))
                  (ap (λ (c : RelayConfig). c.relay) k.config))
                k h
        ]
    Serve-Keeps {s = s} (pull_served req body) k =
        elim (pull-Leaves f (mem_store standard order) features standard req s body) [
          | inl h ↦ Leaves-Keeps s.store s _ k.limited k h
          | inr h ↦
              Leaves-Keeps _ s _
                (Limited.next k.limited (pull_step body.recipient body.cursor _ _) tt) k h
        ]
    Serve-Keeps {s = s} (ack_served req body l) k =
        elim (ack-Leaves f (mem_store standard order) features standard req s body) [
          | inl h ↦ Leaves-Keeps s.store s _ k.limited k h
          | inr h ↦
              Leaves-Keeps _ s _
                (Limited.next k.limited
                  (ack_step order body.recipient (map to_item body.ack) arranges
                    (omega (arith, length-map to_item body.ack)))
                  tt)
                k h
        ]
    Serve-Keeps {s = s} (gc_ticked time) k = record {
      config = k.config;
      limited = Limited.next k.limited (purge_step (now_millis time) 1024) tt;
    }

    Serves-Keeps : {s : Server} → Serves cfg s → Keeps cfg s
    Serves-Keeps {s = s} (started now e) = start-Keeps now cfg s e
    Serves-Keeps (served p st) = Serve-Keeps st (Serves-Keeps p)

    -- Whatever requests and ticks a server over the store in memory gets after it starts, it keeps
    -- its configuration, every recipient's state is well formed, and no recipient has more messages
    -- or more payload bytes queued than the configuration allows, if the limit on bytes is not the
    -- last u64 value, no push meets a recipient whose u64 sequence numbers are used up, and no
    -- acknowledgement has more items than a u64 counts.
    pub Serves-le :
        {s : Server}
        → Serves cfg s
        → (s.config ≡ cfg)
          × IsValid s.store
          × ((r : Text) (e : RecipientState)
              → lookup r s.store ≡ some e
              → (length e.queue ≤ cfg.relay.max_messages_per_user)
                × (total_bytes e.queue ≤ cfg.relay.max_queue_bytes_per_user))
    Serves-le p =
        let k = Serves-Keeps p in
        (
          k.config,
          Reach-IsValid standard (Limited-Reach cfg.relay standard k.limited),
          Limited-le cfg.relay standard k.limited,
        )
