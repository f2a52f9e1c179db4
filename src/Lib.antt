-- ===== src/Lib.antt =====
-- A model of enigma-relay, a relay that keeps encrypted messages for recipients who are offline.
--
-- The program. A client sends HTTP requests to /push, /pull and /ack (src/server.rs of the repository). A
-- handler asks the rate limiter, checks the body, and calls a store through the trait `RelayStore`
-- (src/store.rs). A store keeps one queue per recipient, in order of arrival, under limits on messages and
-- bytes; it finds duplicates by message id and chunk index. A collector (src/ttl.rs) purges what has expired.
--
-- The files, and the code that they model:
--   Base          lists, maps, text, UTF-8, decimal numbers and sorting, as the Rust library has them
--   Error         src/error.rs: `EnigmaRelayError`, `into_response`; Error/Status: `status_code`; Error/Action:
--                 steps that keep a state and may end in an error
--   Model         src/model.rs: the bodies of requests and responses
--   Config        src/config.rs: the records, their defaults, `load` and `validate`; Config/Valid: what
--                 `validate` accepts
--   Store         src/store.rs: the records, the trait as the record `RelayStore`, `encode_cursor` and
--                 `decode_cursor`; Store/Cursor: their round trip
--   StoreMem      src/store_mem.rs: `RecipientState` and `MemStore` (State) and the methods `push`, `pull`,
--                 `ack` and `purge_expired` (Push, Pull, Ack, Purge). Wf and Invariant: well-formed states.
--                 Mailbox: a queue without index and counters, the specification of the four methods.
--                 Run: runs of any calls. Delivery: from a push
--                 to the pulls
--   StoreSled     src/store_sled.rs: the keys of the trees, `parse_seq_from_key`, and the numbers in the values
--                 (Keys), `SledStore` (State), the calls on its trees (Trees) and the methods `push`, `pull`,
--                 `ack` and `purge_expired` (Push, Scan and Pull, Ack, Purge). Db: the crates sled and
--                 serde_json as interfaces. Entries, Logic and Represents: what the trees hold, rules for the
--                 calls, and when the trees hold a state of src/store_mem.rs. Alike: runs of both stores
--   Metrics       src/metrics.rs: the counters and `snapshot`
--   Limiter       src/server.rs: `RateLimiter`, `Bucket` and `allow`
--   Ttl           src/ttl.rs: `now_millis` and `run_gc`
--   Server        src/server.rs: `AppState`, `enforce_rate`, `build_inbound_message` and `to_delivery`
--                 (Inbound), the handlers (Handlers), `build_rustls_config` (Tls), `build_server`,
--                 `start_with_store` and `start` (Start, Listen). Effects, Answers and Rates: what
--                 a handler does and answers over any store, and what it charges;
--                 Run and Pages: a server over the store in memory
--
-- How the model stands to the code. A method of a store is a function of its state, since it holds its lock
-- from its first access to its last; a handler is a step that returns a result and a state, on the error paths
-- too. A String is the list of its scalar values, a u64 or u32 is a natural number with its saturation or
-- wrap-around written out, a `Uuid` is its 128-bit value, a HashMap is an association list, and a BTreeMap is
-- one in order of keys. The cargo features are a value of `Features`. The clocks are arguments. The base64 crate
-- is the record `Base64`, with the law that it decodes what it encoded; the hyphenated form of a `Uuid` is the
-- record `Hyphenated`, with its length and injectivity; sled is the record `Sled`, whose laws say what a call
-- that does not fail does to the entries of a tree and that a transaction is kept as a whole or not at all, and
-- serde_json is the record `Json`, that reads back what it wrote; rustls with the files that it reads is the
-- record `Rustls`, and the sockets are the record `Net`, both without laws; f64 arithmetic is the record `F64`, with
-- the laws of IEEE 754 on small whole numbers; the order in which a HashSet is visited is a parameter.
--
-- Bounds. A run assumes that no recipient uses up the 2^64 sequence numbers, that the limit on bytes is not
-- the last u64 value, and that a list of items has no more than 2^64 of them. `allow` panics where a ban that
-- it starts does not end at an `Instant`, which has an i64 of seconds: `ban_seconds` is then beyond any time that
-- a server runs. The model adds natural numbers there, and a theorem that concludes that a call starts a ban
-- assumes that the end is an instant (`IsInstant`). A client that follows cursors is given fuel for its
-- pulls, more than the messages that it waits for. All other loops recur on a list.
--
-- Not modelled: sled itself, and calls of the store on disk that run at once, since the four methods are each a
-- function of the trees; the JSON and HTTP around the bodies; that the tasks of the runtime run, and the order
-- of the shutdown; and what text the errors of other crates have.
pub mod Base
pub mod Error
pub mod Model
pub mod Config
pub mod Store
pub mod StoreMem
pub mod StoreSled
pub mod Metrics
pub mod Limiter
pub mod Ttl
pub mod Server
mod Tests
