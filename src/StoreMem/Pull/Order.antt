-- ===== src/StoreMem/Pull/Order.antt =====
-- The live messages of a queue in src/store_mem.rs, in their order of arrival: what a start leaves of
-- them, and what a pull leaves.
use enigma_relay.Base.{
  ℕ, zero, suc, ◌≤◌, ◌<◌, ◌≡◌, refl, ◌∙◌, true, Option, none, some, List, [], ◌∷◌, arith, leb,
  if◌then◌else◌, length, take, drop, last, All, Bool-cases, inl, inr, subst,
}
use enigma_relay.Base.Text.{Text}
use enigma_relay.Base.Map.{Ascends, Ascends-le}
use enigma_relay.Store.{QueueMessage}
use enigma_relay.StoreMem.State.{Queue}
use enigma_relay.StoreMem.Wf.{Filed}
use enigma_relay.StoreMem.Mailbox.{live, sweep, waiting, is_after}

-- The sequence numbers of the messages rise strictly, from `lo` on.
abbrev pub Rising : ℕ → List QueueMessage → Type 0
Rising lo [] = Unit
Rising lo (m ∷ ms) = (lo ≤ m.arrival_seq) × Rising (suc m.arrival_seq) ms

-- The message is the recipient's, and its number is below `hi`.
abbrev pub Addressed : Text → ℕ → QueueMessage → Type 0
Addressed recipient hi m = (m.recipient ≡ recipient) × (m.arrival_seq < hi)

unfoldable pub after : Option ℕ → List QueueMessage → List QueueMessage
after start [] = []
after start (m ∷ ms) =
    let rest = after start ms in if is_after start m.arrival_seq then m ∷ rest else rest

pub Rising-lower : (lo lo' : ℕ) (ms : List QueueMessage) → lo ≤ lo' → Rising lo' ms → Rising lo ms
Rising-lower lo lo' [] l h = tt
Rising-lower lo lo' (m ∷ ms) l h = (omega arith, h.1)

pub after-Rising :
    (start : Option ℕ) (lo : ℕ) (ms : List QueueMessage) → Rising lo ms → Rising lo (after start ms)
unfolding after
after-Rising start lo [] h = tt
after-Rising start lo (m ∷ ms) h =
    let ih = after-Rising start (suc m.arrival_seq) ms h.1 in
    elim (Bool-cases (is_after start m.arrival_seq)) [
      | inl e ↦ rw e (h.0, ih)
      | inr e ↦ rw e (Rising-lower lo (suc m.arrival_seq) (after start ms) (omega arith) ih)
    ]

pub after-All {ℓ} :
    (P : QueueMessage → Type ℓ) (start : Option ℕ) (ms : List QueueMessage)
    → All P ms
    → All P (after start ms)
unfolding after
after-All P start [] h = h
after-All P start (m ∷ ms) h = elim (Bool-cases (is_after start m.arrival_seq)) [
  | inl e ↦ rw e (h.0, after-All P start ms h.1)
  | inr e ↦ rw e (after-All P start ms h.1)
]

-- What comes after the start does.
pub after-is_after :
    (start : Option ℕ) (ms : List QueueMessage)
    → All (λ m. is_after start m.arrival_seq ≡ true) (after start ms)
unfolding after
after-is_after start [] = tt
after-is_after start (m ∷ ms) = elim (Bool-cases (is_after start m.arrival_seq)) [
  | inl e ↦ rw e (e, after-is_after start ms)
  | inr e ↦ rw e (after-is_after start ms)
]

after_above : (a : ℕ) (ms : List QueueMessage) → Rising (suc a) ms → after (some a) ms ≡ ms
unfolding after
after_above a [] h = refl
after_above a (m ∷ ms) h =
    ground (arith, after_above a ms (Rising-lower (suc a) (suc m.arrival_seq) ms (omega arith) h.1))

after_below :
    (a : ℕ) (m : QueueMessage) (ms : List QueueMessage)
    → m.arrival_seq ≤ a
    → after (some a) (m ∷ ms) ≡ after (some a) ms
unfolding after
after_below a m ms h = ground arith

-- A later start makes an earlier one void.
pub after-after :
    (start : Option ℕ) (a : ℕ) (ms : List QueueMessage)
    → is_after start a ≡ true
    → after (some a) (after start ms) ≡ after (some a) ms
unfolding after
after-after start a [] h = refl
after-after none a (m ∷ ms) h = ground (arith, after-after none a ms h)
after-after (some k) a (m ∷ ms) h = ground (arith, after-after (some k) a ms h)

pub last-take-All {ℓ} :
    (P : QueueMessage → Type ℓ) (n : ℕ) (ms : List QueueMessage) (m : QueueMessage)
    → All P ms
    → last (take n ms) ≡ some m
    → P m
last-take-All P zero ms m h e = cc
last-take-All P (suc n) [] m h e = cc
last-take-All P (suc zero) (x ∷ xs) m h e = subst P (cc) h.0
last-take-All P (suc (suc n)) (x ∷ []) m h e = subst P (cc) h.0
last-take-All P (suc (suc n)) (x ∷ y ∷ ys) m h e = last-take-All P (suc n) (y ∷ ys) m h.1 e

last-Rising :
    (lo n : ℕ) (ms : List QueueMessage) (m : QueueMessage)
    → Rising lo ms
    → last (take n ms) ≡ some m
    → lo ≤ m.arrival_seq
last-Rising lo zero ms m h e = cc
last-Rising lo (suc n) [] m h e = cc
last-Rising lo (suc zero) (x ∷ xs) m h e = ground arith
last-Rising lo (suc (suc n)) (x ∷ []) m h e = ground arith
last-Rising lo (suc (suc n)) (x ∷ y ∷ ys) m h e =
    omega (arith, last-Rising (suc x.arrival_seq) (suc n) (y ∷ ys) m h.1 e)

-- What comes after the last message of a page is what the page left.
pub after_last :
    (lo n : ℕ) (ms : List QueueMessage) (m : QueueMessage)
    → Rising lo ms
    → n < length ms
    → last (take (suc n) ms) ≡ some m
    → after (some m.arrival_seq) ms ≡ drop (suc n) ms
unfolding after
after_last lo n [] m h l e = absurd (omega arith)
after_last lo zero (x ∷ xs) m h l e =
    let same : x ≡ m = cc in
    subst (λ y. after (some y.arrival_seq) (x ∷ xs) ≡ xs) same
      (ground (arith, after_above x.arrival_seq xs h.1))
after_last lo (suc n) (x ∷ []) m h l e = absurd (omega arith)
after_last lo (suc n) (x ∷ y ∷ ys) m h l e =
    let a = m.arrival_seq in
    let up : suc x.arrival_seq ≤ a = last-Rising (suc x.arrival_seq) (suc n) (y ∷ ys) m h.1 e in
    after_below a x (y ∷ ys) (omega arith)
    ∙ after_last (suc x.arrival_seq) n (y ∷ ys) m h.1 (omega arith) e

-- A page of a queue with more messages has a last one.
pub last-take-some :
    (n : ℕ) (ms : List QueueMessage)
    → 0 < n
    → n ≤ length ms
    → (m : QueueMessage) × (last (take n ms) ≡ some m)
last-take-some zero ms p l = absurd (omega arith)
last-take-some (suc n) [] p l = absurd (omega arith)
last-take-some (suc zero) (x ∷ xs) p l = (x, refl)
last-take-some (suc (suc n)) (x ∷ []) p l = (x, refl)
last-take-some (suc (suc n)) (x ∷ y ∷ ys) p l =
    last-take-some (suc n) (y ∷ ys) (omega arith) (omega arith)

-- A later sweep or pull loses nothing that is live.
pub live-sweep :
    (start : Option ℕ) (n now_ms later_ms : ℕ) (q : Queue)
    → now_ms ≤ later_ms
    → live later_ms (sweep start n now_ms q) ≡ live later_ms q
unfolding live sweep
live-sweep start n now_ms later_ms [] h = refl
live-sweep start zero now_ms later_ms ((seq, m) ∷ q) h =
    ground (arith, live-sweep start zero now_ms later_ms q)
live-sweep start (suc n) now_ms later_ms ((seq, m) ∷ q) h =
    ground (arith, live-sweep start (suc n) now_ms later_ms q, live-sweep start n now_ms later_ms q)

pub waiting-none : (now_ms : ℕ) (q : Queue) → waiting none now_ms q ≡ live now_ms q
unfolding waiting live
waiting-none now_ms [] = refl
waiting-none now_ms ((seq, m) ∷ q) = ground (arith, waiting-none now_ms q)

module _ (recipient : Text) where
  pub waiting-after :
      (start : Option ℕ) (now_ms : ℕ) (q : Queue)
      → All (Filed recipient) q
      → waiting start now_ms q ≡ after start (live now_ms q)
  unfolding waiting live after
  waiting-after start now_ms [] h = refl
  waiting-after start now_ms ((seq, m) ∷ q) h = ground (arith, waiting-after start now_ms q h.1)

  pub live-Rising :
      (lo hi now_ms : ℕ) (q : Queue)
      → Ascends lo hi q
      → All (Filed recipient) q
      → Rising lo (live now_ms q)
  unfolding live
  live-Rising lo hi now_ms [] a h = tt
  live-Rising lo hi now_ms ((seq, m) ∷ q) a h =
      let ih = live-Rising (suc seq) hi now_ms q a.1 h.1 in
      elim (Bool-cases (leb m.deadline_ms now_ms)) [
        | inl e ↦ rw e (Rising-lower lo (suc seq) (live now_ms q) (omega arith) ih)
        | inr e ↦ rw (e, h.0.0) (a.0, ih)
      ]

  pub live-Addressed :
      (lo hi now_ms : ℕ) (q : Queue)
      → Ascends lo hi q
      → All (Filed recipient) q
      → All (Addressed recipient hi) (live now_ms q)
  unfolding live
  live-Addressed lo hi now_ms [] a h = tt
  live-Addressed lo hi now_ms ((seq, m) ∷ q) a h =
      let ih = live-Addressed (suc seq) hi now_ms q a.1 h.1 in
      elim (Bool-cases (leb m.deadline_ms now_ms)) [
        | inl e ↦ rw e ih
        | inr e ↦ rw e ((h.0.1, omega (arith, Ascends-le (suc seq) hi q a.1)), ih)
      ]

pub live_unexpired : (now_ms : ℕ) (q : Queue) → All (λ m. now_ms < m.deadline_ms) (live now_ms q)
unfolding live
live_unexpired now_ms [] = tt
live_unexpired now_ms ((seq, m) ∷ q) = elim (Bool-cases (leb m.deadline_ms now_ms)) [
  | inl e ↦ rw e (live_unexpired now_ms q)
  | inr e ↦ rw e (ground arith, live_unexpired now_ms q)
]
