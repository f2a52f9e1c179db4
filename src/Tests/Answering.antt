-- ===== src/Tests/Answering.antt =====
-- A server that has stored one message, at concrete inputs: it delivers the message, and deletes it.
use enigma_relay.Base.{ℕ, ◌<◌, ◌≤◌, ◌≡◌, refl, false, none, some, [], ◌∷◌, arith, map}
use enigma_relay.Base.Text.{codes, trim, is_empty}
use enigma_relay.Base.Utf8.{as_bytes, from_utf8}
use enigma_relay.Base.Eq.{list_eq, nat_eq, pair_eq}
use enigma_relay.Base.Map.{lookup, insert, remove, contains_key, insert_sorted}
use enigma_relay.Error.Action.{◌>>=◌}
use enigma_relay.Error.{Result, ok}
use enigma_relay.Config.{default_features}
use enigma_relay.Model.{PullRequest, PullResponse, AckEntry, AckRequest, AckResponse}
use enigma_relay.Limiter.{take_token, allow_bucket, allow}
use enigma_relay.Store.{PullBatch, AckOutcome, QueueMessage}
use enigma_relay.StoreMem.{mem_store}
use enigma_relay.StoreMem.State.{drop_all}
use enigma_relay.StoreMem.Push
use enigma_relay.StoreMem.Push.{push_entry}
use enigma_relay.StoreMem.Pull
use enigma_relay.StoreMem.Pull.{collect, entries_from, start_seq, pull_from, pull_entry}
use enigma_relay.StoreMem.Ack
use enigma_relay.StoreMem.Ack.{ack_item, ack_items, to_set, ack_entry}
use enigma_relay.Ttl.{now_millis}
use enigma_relay.Server.{peer_ip, endpoint_rps, count, call, ask, check_rate, enforce_rate}
use enigma_relay.Server.Inbound.{build_inbound_message, to_delivery}
use enigma_relay.Server.Handlers
use enigma_relay.Server.Handlers.{to_item}
use enigma_relay.Server.Answers.{pull-ok, ack-ok}
use enigma_relay.Server.Pages.{length-items-le}
use enigma_relay.Server.Run.{Server}
use enigma_relay.Tests.Data.{latin, alice, chunk, in_order}
use enigma_relay.Tests.Limits.{nano}
use enigma_relay.Tests.Serving.{req, served_push}

abbrev state1 : Server nano default_features latin in_order
state1 = served_push.1

abbrev ask_all : PullRequest
ask_all = record { recipient = alice; cursor = none; max = some 1000 }

abbrev served_pull : Result PullResponse × Server nano default_features latin in_order
served_pull =
    Handlers.pull nano (mem_store latin in_order) default_features latin req ask_all state1

abbrev page : PullResponse
page = record {
  items =
      record {
        recipient = alice;
        message_id = 1;
        ciphertext_b64 = codes "b25l";
        meta = chunk 0;
        arrival_ms = 100;
        deadline_ms = 1209600100;
      }
      ∷ [];
  next_cursor = none;
  remaining_estimate = 0;
}

pulled : served_pull.0 ≡ ok page
unfolding Handlers.push Handlers.pull count call enforce_rate check_rate ask allow allow_bucket
    ◌>>=◌ take_token peer_ip endpoint_rps now_millis build_inbound_message to_delivery trim as_bytes
    from_utf8 Push.push push_entry lookup insert contains_key insert_sorted Pull.pull pull_entry
    pull_from start_seq collect entries_from drop_all
pulled = refl

batch_max : state1.config.relay.pull_batch_max ≡ 256
unfolding Handlers.push count call enforce_rate check_rate ask allow allow_bucket take_token peer_ip
    ◌>>=◌ endpoint_rps now_millis build_inbound_message trim as_bytes from_utf8 Push.push push_entry
    lookup insert contains_key insert_sorted
batch_max = refl

pull-ok_example :
    (limit : ℕ) × (batch : PullBatch) × (is_empty (trim alice) ≡ false)
    × (0 < limit)
    × (limit ≤ state1.config.relay.pull_batch_max)
    × ((Pull.pull latin alice none limit (now_millis req.time) state1.store).0 ≡ ok batch)
    × (served_pull.1.store
        ≡ (Pull.pull latin alice none limit (now_millis req.time) state1.store).1)
    × (page ≡ record {
      items =
          map
            (λ (m : QueueMessage). record {
              recipient = m.recipient;
              message_id = m.message_id;
              ciphertext_b64 = m.ciphertext_b64;
              meta = m.meta;
              arrival_ms = m.arrival_ms;
              deadline_ms = m.deadline_ms;
            })
            batch.items;
      next_cursor = batch.next_cursor;
      remaining_estimate = batch.remaining_estimate;
    })
pull-ok_example =
    pull-ok nano (mem_store latin in_order) default_features latin req state1 ask_all page
      (omega (arith, batch_max)) pulled

length-items-le_example : 1 ≤ state1.config.relay.pull_batch_max
length-items-le_example =
    length-items-le nano default_features latin in_order req state1 ask_all page
      (omega (arith, batch_max)) pulled

abbrev ack_one : AckRequest
ack_one = record { recipient = alice; ack = record { message_id = 1; chunk_index = 0 } ∷ [] }

abbrev served_ack : Result AckResponse × Server nano default_features latin in_order
served_ack = Handlers.ack nano (mem_store latin in_order) default_features latin req ack_one state1

abbrev gone : AckResponse
gone = record { deleted = 1; missing = 0; remaining = 0 }

acked : served_ack.0 ≡ ok gone
unfolding Handlers.push Handlers.ack count call enforce_rate check_rate ask allow allow_bucket ◌>>=◌
    take_token peer_ip endpoint_rps now_millis build_inbound_message trim as_bytes from_utf8
    Push.push push_entry lookup insert remove contains_key insert_sorted Ack.ack ack_entry ack_items
    ack_item to_set
acked = refl

ack-ok_example :
    (outcome : AckOutcome) × (is_empty (trim alice) ≡ false)
    × ((Ack.ack in_order alice
          (map
            (λ (entry : AckEntry). record {
              message_id = entry.message_id;
              chunk_index = entry.chunk_index;
            })
            ack_one.ack)
          state1.store).0
        ≡ ok outcome)
    × (served_ack.1.store
        ≡ (Ack.ack in_order alice
            (map
              (λ (entry : AckEntry). record {
                message_id = entry.message_id;
                chunk_index = entry.chunk_index;
              })
              ack_one.ack)
            state1.store).1)
    × (gone ≡ record {
      deleted = outcome.deleted;
      missing = outcome.missing;
      remaining = outcome.remaining;
    })
ack-ok_example =
    ack-ok nano (mem_store latin in_order) default_features latin req state1 ack_one gone acked
