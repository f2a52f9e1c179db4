-- ===== src/StoreSled/Purge/Step.antt =====
-- The states of all recipients while `SledStore::purge_expired` of src/store_sled.rs runs, and what the
-- removal of a message does to them.
use enigma_relay.Base.{
  ℕ, suc, ◌≤◌, ◌≡◌, ◌≢◌, refl, sym, ap, ◌∙◌, subst, ◌⊎◌, false, none, some, [], ◌∷◌, arith,
  if◌then◌else◌, eqb, Bool-cases, inl, inr,
}
use enigma_relay.Base.Text.{Text}
use enigma_relay.Base.Eq.{◌==◌, nat_eq, list_eq}
use enigma_relay.Base.Map
use enigma_relay.Base.Map.{lookup, lookup-insert, lookup-remove, lookup-above}
use enigma_relay.Error.{ok}
use enigma_relay.Store.{QueueMessage}
use enigma_relay.StoreMem.State.{RecipientState}
use enigma_relay.StoreMem.Wf.{IsWf, without, without-IsWf}
use enigma_relay.StoreMem.Mailbox.{item_of}
use enigma_relay.StoreSled.Keys.{Hyphenated, quota_key, seq_key}
use enigma_relay.StoreSled.Keys.Order.{IsPlain}
use enigma_relay.StoreSled.Db.{Bytes, Json}
use enigma_relay.StoreSled.State.{QuotaValue}
use enigma_relay.StoreSled.Push.{decode_seq}
use enigma_relay.StoreSled.Purge.{Quotas, less}
use enigma_relay.StoreSled.Logic.{View}
use enigma_relay.StoreSled.Represents.{quota_of, bytes_of, quota_at, key_at}
use enigma_relay.StoreSled.Ack.Erased.{Holds, erased, erased-Holds, erased-Holds_other}
use enigma_relay.StoreSled.Ack.Loop.{Fits}

-- The state of each recipient.
abbrev pub States : Type 0
States = Text → RecipientState

abbrev pub dropped : Text → ℕ → QueueMessage → States → States
dropped recipient seq m st r = if r == recipient then without seq m (st recipient) else st r

-- Some expired messages are taken out, one after the other.
pub data Purges (now_ms : ℕ) : ℕ → States → States → Type 0 where
  nothing : {st : States} → Purges now_ms 0 st st
  drop_expired :
      {n : ℕ} {st st' : States} (recipient : Text) (seq : ℕ) (m : QueueMessage)
      → lookup seq (st recipient).queue ≡ some m
      → m.deadline_ms ≤ now_ms
      → Purges now_ms n (dropped recipient seq m st) st'
      → Purges now_ms (suc n) st st'

-- The keys of the quotas are those of plain recipients, each once.
abbrev pub Once : Quotas → Type 0
Once [] = Unit
Once ((r, q) ∷ known) = (lookup r known ≡ none) × IsPlain r × Once known

pub Once-insert :
    (r : Text) (q : QuotaValue) (known : Quotas)
    → IsPlain r
    → Once known
    → Once (Map.insert r q known)
unfolding Map.insert lookup
Once-insert r q [] plain once = (refl, plain, tt)
Once-insert r q ((r', q') ∷ known) plain once = elim (Bool-cases (r' == r)) [
  | inl same ↦
      let gone : lookup r known ≡ none =
        subst (λ x. lookup x known ≡ none) ((list_eq.same_iff r' r).0 same) once.0 in
      rw same (gone, plain, once.2)
  | inr other ↦
      let gone : lookup r' (Map.insert r q known) ≡ none =
        ground (
          arith,
          once.0,
          lookup-insert r r' q known,
          list_eq.same_iff r' r,
          list_eq.same_iff r r',
        ) in
      rw other (gone, once.1, Once-insert r q known plain once.2)
]

module _ (recipient : Text) (seq : ℕ) (m : QueueMessage) (st : States) where
  -- What holds of the recipient after, and of the others, holds of all.
  pub dropped_induction :
      (P : Text → RecipientState → Type 0)
      → P recipient (without seq m (st recipient))
      → ((r : Text) → IsPlain r → recipient ≢ r → P r (st r))
      → (r : Text) → IsPlain r
      → P r (dropped recipient seq m st r)
  dropped_induction P own others r plain' = elim (Bool-cases (r == recipient)) [
    | inl same ↦
        let here = (list_eq.same_iff r recipient).0 same in
        rw same (subst (λ x. P x (without seq m (st recipient))) (sym here) own)
    | inr other ↦
        let apart : recipient ≢ r = λ e. ground (arith, list_eq.same_iff r recipient, e) in
        rw other (others r plain' apart)
  ]

module _ (items : Json QueueMessage) (quotas : Json QuotaValue) (hyphenated : Hyphenated) where
  -- An entry is that of a message in the queue of a plain recipient.
  pub record Owned (st : States) (entry : Bytes × Bytes) : Type 0 where
    pub seq : ℕ
    pub message : QueueMessage
    pub plain : IsPlain message.recipient
    pub fits : Fits (item_of message)
    pub held : lookup seq (st message.recipient).queue ≡ some message
    pub key : entry.0 ≡ key_at hyphenated message.recipient seq message
    pub value : entry.1 ≡ bytes_of items message

  -- The quota of a recipient is known, or it is the one on disk.
  pub record Purging (v : View) (known : Quotas) (st : States) : Type 0 where
    pub holds : (r : Text) → IsPlain r → Holds items hyphenated r v (st r)
    pub wf : (r : Text) → IsPlain r → IsWf r (st r)
    pub once : Once known
    pub quota :
        (r : Text)
        → IsPlain r
        → (lookup r known ≡ some (quota_of (st r)))
          ⊎ (lookup r known ≡ none)
            × (quota_at quotas (lookup (quota_key r) v.quota) ≡ ok (quota_of (st r)))
    pub numbered : (r : Text) → IsPlain r → decode_seq (lookup (seq_key r) v.seq) ≡ ok (st r).seq

  module _ (recipient : Text) (seq : ℕ) (m : QueueMessage) (plain : IsPlain recipient)
      (fits : Fits (item_of m)) (st : States)
      (held : lookup seq (st recipient).queue ≡ some m) where
    abbrev after : States
    after = dropped recipient seq m st

    pub dropped-Purging :
        (v : View) (known : Quotas)
        → Purging v known st
        → Purging
            (erased items hyphenated recipient plain seq m fits.0 fits.1 v)
            (Map.insert recipient (less m (quota_of (st recipient))) known)
            after
    dropped-Purging v known h =
        let gone = erased items hyphenated recipient plain seq m fits.0 fits.1 v in
        let rest = less m (quota_of (st recipient)) in
        record {
          holds =
              dropped_induction recipient seq m st (λ r s. Holds items hyphenated r gone s)
                (erased-Holds items hyphenated recipient plain seq m fits.0 fits.1 v (st recipient)
                  (h.wf recipient plain) held (h.holds recipient plain))
                (λ r plain' other.
                  erased-Holds_other items hyphenated recipient plain seq m fits.0 fits.1 v r (st r)
                    plain' other (h.holds r plain'));
          wf =
              dropped_induction recipient seq m st IsWf
                (without-IsWf (h.wf recipient plain) seq m held) (λ r plain' other. h.wf r plain');
          once = Once-insert recipient rest known plain h.once;
          quota =
              dropped_induction recipient seq m st
                (λ r s.
                  (lookup r (Map.insert recipient rest known) ≡ some (quota_of s))
                  ⊎ (lookup r (Map.insert recipient rest known) ≡ none)
                    × (quota_at quotas (lookup (quota_key r) v.quota) ≡ ok (quota_of s)))
                (inl (Map.lookup-insert_self recipient rest known))
                (λ r plain' other.
                  let same : lookup r (Map.insert recipient rest known) ≡ lookup r known = ground (
                    arith,
                    lookup-insert recipient r rest known,
                    list_eq.same_iff recipient r,
                    other,
                  ) in
                  rw same (h.quota r plain'));
          numbered =
              dropped_induction recipient seq m st
                (λ r s. decode_seq (lookup (seq_key r) v.seq) ≡ ok s.seq)
                (h.numbered recipient plain) (λ r plain' other. h.numbered r plain');
        }

    still_held :
        (entry : Bytes × Bytes)
        → (entry.0 == key_at hyphenated recipient seq m) ≡ false
        → (o : Owned st entry) → o.message.recipient ≡ recipient
        → lookup o.seq (Map.remove seq (st recipient).queue) ≡ some o.message
    still_held entry apart o same =
        let found : lookup o.seq (st recipient).queue ≡ some o.message =
          subst (λ x. lookup o.seq (st x).queue ≡ some o.message) same o.held in
        elim (Bool-cases (eqb seq o.seq)) [
          | inl hit ↦
              let seqs : o.seq ≡ seq = ground arith in
              let first : some o.message ≡ some m =
                sym found ∙ ap (λ n. lookup n (st recipient).queue) seqs ∙ held in
              let messages : o.message ≡ m = cc in
              let keys : entry.0 ≡ key_at hyphenated recipient seq m =
                o.key
                ∙ ap (λ r. key_at hyphenated r o.seq o.message) same
                ∙ ap (λ n. key_at hyphenated recipient n o.message) seqs
                ∙ ap (λ w. key_at hyphenated recipient seq w) messages in
              absurd
                (cc (apart, (list_eq.same_iff entry.0 (key_at hyphenated recipient seq m)).1 keys))
          | inr miss ↦ ground (arith, lookup-remove seq o.seq (st recipient).queue, found)
        ]

    pub dropped-Owned :
        (entry : Bytes × Bytes)
        → (entry.0 == key_at hyphenated recipient seq m) ≡ false
        → Owned st entry
        → Owned after entry
    dropped-Owned entry apart o = record {
      seq = o.seq;
      message = o.message;
      plain = o.plain;
      fits = o.fits;
      held =
          dropped_induction recipient seq m st
            (λ r s. o.message.recipient ≡ r → lookup o.seq s.queue ≡ some o.message)
            (λ same. still_held entry apart o same)
            (λ r plain' other same.
              subst (λ x. lookup o.seq (st x).queue ≡ some o.message) same o.held)
            o.message.recipient o.plain refl;
      key = o.key;
      value = o.value;
    }
