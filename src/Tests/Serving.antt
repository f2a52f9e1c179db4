-- ===== src/Tests/Serving.antt =====
-- A server over the store in memory at concrete inputs: it starts and serves one push.
use enigma_relay.Base.{
  ◌≤◌, ◌<◌, ◌≡◌, refl, ◌↔◌, true, false, none, inl, some, arith, length, u64_max,
}
use enigma_relay.Base.Text.{Text, codes, trim}
use enigma_relay.Base.Utf8.{as_bytes, from_utf8}
use enigma_relay.Base.Eq.{list_eq, nat_eq, pair_eq}
use enigma_relay.Base.Map.{lookup, insert, contains_key, insert_sorted}
use enigma_relay.Error.Action.{◌>>=◌}
use enigma_relay.Error.{Result, ok}
use enigma_relay.Config.{
  default_features, default_config, validate, validate_mode, validate_relay, validate_rate_limit,
  validate_storage,
}
use enigma_relay.Model.{PushRequest, PushResponse}
use enigma_relay.Metrics.{default_metrics}
use enigma_relay.Limiter
use enigma_relay.Limiter.{v4, key_eq, take_token, allow_bucket, allow}
use enigma_relay.Store.{InboundMessage, PushResult}
use enigma_relay.StoreMem.{mem_store}
use enigma_relay.StoreMem.State.{RecipientState, new}
use enigma_relay.StoreMem.Push
use enigma_relay.StoreMem.Push.{push_entry, entry_or_default}
use enigma_relay.StoreMem.Wf.{total_bytes}
use enigma_relay.StoreMem.Invariant.{IsValid}
use enigma_relay.Ttl.{now_millis}
use enigma_relay.Server.{Request, peer_ip, endpoint_rps, count, call, ask, check_rate, enforce_rate}
use enigma_relay.Server.Start.{initial_state}
use enigma_relay.Server.Inbound.{build_inbound_message, Accepts, build_inbound_message_iff}
use enigma_relay.Server.Handlers
use enigma_relay.Server.Answers.{push-ok}
use enigma_relay.Server.Rates.{push_rated, Enforces, enforce_rate-both}
use enigma_relay.Server.Run.{Server, started, served, push_served, Serves-le}
use enigma_relay.Tests.Data.{latin, alice, chunk, in_order, in_order-Arranges}
use enigma_relay.Tests.Limits.{nano}

abbrev pub state0 : Server nano default_features latin in_order
state0 = record {
  store = new;
  config = default_config;
  rate_limiter = Limiter.new nano true 300;
  started = 5;
  metrics = default_metrics;
}

starts :
    initial_state nano (mem_store latin in_order) default_features 5 new default_config ≡ ok state0
unfolding initial_state validate validate_mode validate_relay validate_rate_limit validate_storage
    trim
starts = refl

abbrev pub req : Request
req = record {
  peer_addr = some (v4 7);
  global_at = 1000;
  endpoint_at = 1001;
  time = some 100000000;
}

abbrev body : PushRequest
body = record { recipient = alice; message_id = 1; ciphertext_b64 = codes "b25l"; meta = chunk 0 }

abbrev inbound : InboundMessage
inbound = record {
  recipient = alice;
  message_id = 1;
  ciphertext_b64 = codes "b25l";
  meta = chunk 0;
  payload_bytes = 4;
  arrival_ms = 100;
  deadline_ms = 1209600100;
}

builds : build_inbound_message latin 100 body default_config.relay ≡ ok inbound
unfolding build_inbound_message trim as_bytes from_utf8
builds = refl

build_inbound_message_iff_example :
    (build_inbound_message latin 100 body default_config.relay ≡ ok inbound)
    ↔ Accepts latin 100 body default_config.relay inbound
build_inbound_message_iff_example =
    build_inbound_message_iff latin 100 body default_config.relay inbound

abbrev pub served_push : Result PushResponse × Server nano default_features latin in_order
served_push = Handlers.push nano (mem_store latin in_order) default_features latin req body state0

abbrev answer : PushResponse
answer = record { stored = true; duplicate = false; queue_len = some 1; queue_bytes = some 4 }

answered : served_push.0 ≡ ok answer
unfolding Handlers.push count call enforce_rate check_rate ask allow allow_bucket take_token peer_ip
    ◌>>=◌ endpoint_rps now_millis build_inbound_message trim as_bytes from_utf8 Push.push push_entry
    lookup insert contains_key insert_sorted
answered = refl

push-ok_example :
    (msg : InboundMessage) × (result : PushResult) × (build_inbound_message latin
        (now_millis req.time)
        body
        default_config.relay
      ≡ ok msg)
    × ((Push.push msg default_config.relay new).0 ≡ ok result)
    × (served_push.1.store ≡ (Push.push msg default_config.relay new).1)
    × (answer ≡ record {
      stored = result.stored;
      duplicate = result.duplicate;
      queue_len = some result.queue_len;
      queue_bytes = some result.queue_bytes;
    })
push-ok_example =
    push-ok nano (mem_store latin in_order) default_features latin req state0 body answer answered

room : (entry_or_default body.recipient new).seq < u64_max
unfolding lookup
room = omega arith

Serves-le_example :
    (served_push.1.config ≡ default_config)
    × IsValid served_push.1.store
    × ((r : Text) (e : RecipientState)
        → lookup r served_push.1.store ≡ some e
        → (length e.queue ≤ 200000) × (total_bytes e.queue ≤ 1073741824))
Serves-le_example =
    Serves-le nano default_features latin in_order in_order-Arranges default_config (omega arith)
      (served (started 5 starts) (push_served req body room))

no_buckets :
    (label : Text)
    → lookup ⦃e = key_eq⦄ (record { ip = v4 7; label = label }) state0.rate_limiter.buckets ≡ none
unfolding lookup
no_buckets label = refl

-- The first request of a client, who has 40 tokens.
enforce_rate-both_example :
    Enforces nano
      (mem_store latin in_order)
      default_features
      req
      (codes "push")
      state0
      (v4 7)
      default_config.rate_limit.endpoints.push_rps
      40
      40
enforce_rate-both_example =
    enforce_rate-both nano (mem_store latin in_order) default_features req (codes "push") state0
      (v4 7) default_config.rate_limit.endpoints.push_rps 40 40 refl (inl refl) push_rated
      (omega arith) (omega arith) (omega arith) (omega arith) (omega arith)
      (inl (no_buckets (codes "global"), refl)) (inl (no_buckets (codes "push"), refl))
