-- ===== src/StoreMem/Purge/Timely.antt =====
-- Queues of src/store_mem.rs in which the deadlines do not fall, and what a purge of one leaves.
use enigma_relay.Base.{
  ℕ, zero, suc, ◌+◌, ◌≤◌, ◌<◌, ◌≡◌, inl, inr, some, [], ◌∷◌, arith, leb, length, All, Bool-cases,
}
use enigma_relay.Base.Text.{Text}
use enigma_relay.Base.Eq.{list_eq}
use enigma_relay.Base.Map.{lookup}
use enigma_relay.StoreMem.State.{Queue, RecipientState, MemStore}
use enigma_relay.StoreMem.Mailbox.{purge_front}

-- The deadlines do not fall from one message to the next.
abbrev pub Timely : ℕ → Queue → Type 0
Timely lo [] = Unit
Timely lo ((seq, m) ∷ q) = (lo ≤ m.deadline_ms) × Timely m.deadline_ms q

abbrev pub AreTimely : MemStore → Type 0
AreTimely state = (r : Text) (s : RecipientState) → lookup r state ≡ some s → Timely 0 s.queue

-- None of the messages has expired.
abbrev pub AllLive : ℕ → Queue → Type 0
AllLive now_ms = All (λ e. now_ms < e.1.deadline_ms)

pub Timely-lower : (lo lo' : ℕ) (q : Queue) → lo ≤ lo' → Timely lo' q → Timely lo q
Timely-lower lo lo' [] l h = tt
Timely-lower lo lo' ((seq, m) ∷ q) l h = (omega arith, h.1)

pub Timely-purge_front :
    (lo n now_ms : ℕ) (q : Queue) → Timely lo q → Timely lo (purge_front n now_ms q)
unfolding purge_front
Timely-purge_front lo zero now_ms q h = h
Timely-purge_front lo (suc n) now_ms [] h = h
Timely-purge_front lo (suc n) now_ms ((seq, m) ∷ q) h =
    elim (Bool-cases (leb m.deadline_ms now_ms)) [
      | inl e ↦ rw e (Timely-purge_front lo n now_ms q (Timely-lower lo m.deadline_ms q h.0 h.1))
      | inr e ↦ rw e h
    ]

pub Timely-AllLive : (now_ms lo : ℕ) (q : Queue) → now_ms < lo → Timely lo q → AllLive now_ms q
Timely-AllLive now_ms lo [] l h = tt
Timely-AllLive now_ms lo ((seq, m) ∷ q) l h =
    (omega arith, Timely-AllLive now_ms m.deadline_ms q (omega arith) h.1)

-- A purge of a timely queue that drops less than it may leaves nothing that has expired.
pub purge_front-AllLive :
    (lo n now_ms : ℕ) (q : Queue)
    → Timely lo q
    → length q < n + length (purge_front n now_ms q)
    → AllLive now_ms (purge_front n now_ms q)
unfolding purge_front
purge_front-AllLive lo zero now_ms q h l = absurd (omega arith)
purge_front-AllLive lo (suc n) now_ms [] h l = tt
purge_front-AllLive lo (suc n) now_ms ((seq, m) ∷ q) h l =
    elim (Bool-cases (leb m.deadline_ms now_ms)) [
      | inl e ↦ rw e (purge_front-AllLive m.deadline_ms n now_ms q h.1 (ground arith))
      | inr e ↦ rw e (ground arith, Timely-AllLive now_ms m.deadline_ms q (ground arith) h.1)
    ]
