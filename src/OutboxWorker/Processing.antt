-- ===== src/OutboxWorker/Processing.antt =====
-- src/outbox_worker/worker.rs: what processing does to a message, and the counts of a batch.
use sourced_rust.Prelude.{
  ℕ, zero, suc, ◌+◌, ◌≤◌, ◌≡◌, refl, String, Bool, true, false, Option, none, some, List, [], ◌∷◌,
  leb, length, drop, if◌then◌else◌, arith, wrap_u32,
}
use sourced_rust.Outbox.{
  OutboxMessage, OutboxMessageStatus, pending, in_flight, published, failed, OutboxCodecs,
  is_pending, complete, release, fail,
}
use sourced_rust.OutboxWorker.Worker.{
  OutboxPublisher, OutboxWorker, ProcessOneResult, DrainResult, nothing_done, nothing_drained,
  publish_message, process_message, add_result, batch_loop, process_batch,
}

-- The status that the answer of the publisher leads to, after `attempts` claims of at most `max`.
abbrev pub settled : Option String → ℕ → ℕ → OutboxMessageStatus
settled none max attempts = published
settled (some error) max attempts = if leb max attempts then failed else pending

-- The flags for a status that a processed message ended in.
abbrev pub flags : OutboxMessageStatus → ProcessOneResult
flags published = record nothing_done { did_work = true; completed = true }
flags failed = record nothing_done { did_work = true; failed = true }
flags pending = record nothing_done { did_work = true; released = true }
flags in_flight = nothing_done

module _ (codecs : OutboxCodecs) {P : Type 0} (out : OutboxPublisher P) (w : OutboxWorker P)
    (now : ℕ) (m : OutboxMessage) where
  -- One call of the publisher, with what the message carries.
  abbrev called : Option String × P
  called = out.publish w.publisher m.event_type m.payload m.metadata

  abbrev answer : Option String
  answer = called.0

  -- The worker whose publisher was called once.
  abbrev pub once : OutboxWorker P
  once = record w { publisher = called.1 }

  publish_message-settled :
      m.status ≡ in_flight
      → ((publish_message codecs out w now m).2.status ≡ settled answer w.max_attempts m.attempts)
        × ((publish_message codecs out w now m).0
            ≡ flags (settled answer w.max_attempts m.attempts))
        × ((publish_message codecs out w now m).1 ≡ once)
  unfolding publish_message complete release fail
  publish_message-settled h = ground (arith, h)

-- How often a message was claimed when the publisher is called for it.
abbrev pub tried : OutboxMessage → ℕ
tried m = if is_pending m then wrap_u32 (m.attempts + 1) else m.attempts

-- What processing makes of a message by its status, and what it reports.
abbrev pub Settles :
    {P : Type 0} → OutboxCodecs → OutboxPublisher P → OutboxWorker P → ℕ → OutboxMessage → Type 0
Settles codecs out w now m =
    let (r, w', m') = process_message codecs out w now m in
    let end = settled (answer codecs out w now m) w.max_attempts (tried m) in
    elim m.status [
      | pending ↦ (m'.status ≡ end) × (r ≡ flags end) × (w' ≡ once codecs out w now m)
      | in_flight ↦ (m'.status ≡ end) × (r ≡ flags end) × (w' ≡ once codecs out w now m)
      | published ↦ (m' ≡ m) × (r ≡ nothing_done) × (w' ≡ w)
      | failed ↦ (m' ≡ m) × (r ≡ nothing_done) × (w' ≡ w)
    ]

-- Processing a pending or claimed message calls the publisher once, with the message's type, payload
-- and metadata: the worker is left with the state of that one call and otherwise as it was. The
-- message is left published where that call agrees, and otherwise failed or pending again by the
-- number of its claims against the worker's bound, with the flags that say so. A published or failed
-- message is left as it is, and so is the worker: the publisher is not called.
pub process_message-Settles :
    {P : Type 0} (codecs : OutboxCodecs) (out : OutboxPublisher P) (w : OutboxWorker P) (now : ℕ)
    (m : OutboxMessage)
    → Settles codecs out w now m
unfolding process_message
process_message-Settles codecs out w now m =
    ground (arith, publish_message-settled codecs out w now m)

abbrev bit : Bool → ℕ
bit true = 1
bit false = 0

-- A result that says one thing.
abbrev IsOne : ProcessOneResult → Type 0
IsOne r = bit r.did_work ≡ bit r.completed + bit r.released + bit r.failed

-- The counts of a batch add up.
pub IsBalanced : DrainResult → Type 0
IsBalanced d = d.claimed ≡ d.completed + d.released + d.failed

add_result-IsBalanced :
    (d : DrainResult) (r : ProcessOneResult) → IsOne r → IsBalanced d → IsBalanced (add_result d r)
unfolding IsBalanced
add_result-IsBalanced d r one h = ground (arith, one, h)

add_result-claimed :
    (d : DrainResult) (r : ProcessOneResult) → (add_result d r).claimed ≤ d.claimed + 1
add_result-claimed d r = ground arith

module _ {P : Type 0} (codecs : OutboxCodecs) (out : OutboxPublisher P) (now : ℕ) where
  process_message-IsOne :
      (w : OutboxWorker P) (m : OutboxMessage) → IsOne (process_message codecs out w now m).0
  unfolding process_message publish_message
  process_message-IsOne w m = ground arith

  batch_loop_lem :
      (w : OutboxWorker P) (d : DrainResult) (n : ℕ) (ms : List OutboxMessage)
      → IsBalanced d
      → let (d', w', ms') = batch_loop codecs out w now d n ms in
        IsBalanced d'
        × (d'.claimed ≤ d.claimed + n)
        × (length ms' ≡ length ms)
        × (drop n ms' ≡ drop n ms)
  unfolding batch_loop IsBalanced
  batch_loop_lem w d n [] h = (h, omega arith, refl, refl)
  batch_loop_lem w d zero (m ∷ ms) h = (h, omega arith, refl, refl)
  batch_loop_lem w d (suc n) (m ∷ ms) h =
      let one = process_message-IsOne w m in
      let (r, w', m') = process_message codecs out w now m in
      let (b, l, k, same) =
        batch_loop_lem w' (add_result d r) n ms (add_result-IsBalanced d r one h) in
      (b, omega (arith, l, add_result-claimed d r), omega (arith, k), same)

-- A batch reports as many claims as completions, releases and failures together, no more than the
-- batch size; it returns as many messages as it was given, and those behind the batch size as they
-- were.
pub process_batch-IsBalanced :
    {P : Type 0} (codecs : OutboxCodecs) (out : OutboxPublisher P) (w : OutboxWorker P) (now : ℕ)
    (ms : List OutboxMessage)
    → let (d, w', ms') = process_batch codecs out w now ms in
      IsBalanced d
      × (d.claimed ≤ w.batch_size)
      × (length ms' ≡ length ms)
      × (drop w.batch_size ms' ≡ drop w.batch_size ms)
unfolding process_batch IsBalanced
process_batch-IsBalanced codecs out w now ms =
    let (b, l, k, same) =
      batch_loop_lem codecs out now w nothing_drained w.batch_size ms balanced in
    (b, omega (arith, l), k, same)
  where
    balanced : IsBalanced nothing_drained
    balanced = refl
