-- ===== src/OutboxWorker/Worker.antt =====
-- src/outbox_worker/worker.rs: the worker that processes messages its caller loaded.
use sourced_rust.Prelude.{
  ℕ, ◌+◌, String, Bool, true, false, ◌||◌, not, Option, none, some, List, [], ◌∷◌, leb, zero, suc,
  if◌then◌else◌,
}
use sourced_rust.Prelude.HashMap.{HashMap}
use sourced_rust.Bitcode.{Bytes}
use sourced_rust.Outbox.{
  OutboxMessage, OutboxCodecs, claim_for, complete, release, fail, is_pending, is_in_flight,
  is_published, is_failed,
}

-- The trait `OutboxPublisher` over the publisher's state, for publishers that return: `none` is
-- `Ok(())`, and an error is its text.
pub record OutboxPublisher (P : Type 0) : Type 0 where
  pub publish : P → String → Bytes → HashMap String → Option String × P

pub record OutboxWorker (P : Type 0) : Type 0 where
  pub publisher : P
  pub worker_id : String
  pub batch_size : ℕ
  pub lease : ℕ
  pub max_attempts : ℕ

pub record ProcessOneResult : Type 0 where
  pub did_work : Bool
  pub completed : Bool
  pub released : Bool
  pub failed : Bool

pub record DrainResult : Type 0 where
  pub claimed : ℕ
  pub completed : ℕ
  pub released : ℕ
  pub failed : ℕ

-- The defaults of the two results.
abbrev pub nothing_done : ProcessOneResult
nothing_done = record { did_work = false; completed = false; released = false; failed = false }

abbrev pub nothing_drained : DrainResult
nothing_drained = record { claimed = 0; completed = 0; released = 0; failed = 0 }

abbrev pub add_result : DrainResult → ProcessOneResult → DrainResult
add_result d r = record {
  claimed = if r.did_work then d.claimed + 1 else d.claimed;
  completed = if r.completed then d.completed + 1 else d.completed;
  released = if r.released then d.released + 1 else d.released;
  failed = if r.failed then d.failed + 1 else d.failed;
}

module _ (codecs : OutboxCodecs) {P : Type 0} (out : OutboxPublisher P) where
  -- What stands behind the tests of `process_message`: the call of the publisher and its outcome.
  unfoldable pub publish_message :
      OutboxWorker P → ℕ → OutboxMessage → ProcessOneResult × OutboxWorker P × OutboxMessage
  unfolding complete release fail
  publish_message w now m =
      let (r, p) = out.publish w.publisher m.event_type m.payload m.metadata in
      let w' = record w { publisher = p } in
      elim r [
        | none ↦
            (record nothing_done { did_work = true; completed = true }, w', complete codecs m now)
        | some error ↦
            if leb w.max_attempts m.attempts
            then (
              record nothing_done { did_work = true; failed = true },
              w',
              fail codecs m now error,
            )
            else (
              record nothing_done { did_work = true; released = true },
              w',
              release codecs m now error,
            )
      ]

  unfoldable pub process_message :
      OutboxWorker P → ℕ → OutboxMessage → ProcessOneResult × OutboxWorker P × OutboxMessage
  unfolding publish_message claim_for
  process_message w now m =
      if is_published m || is_failed m
      then (nothing_done, w, m)
      else (let m' = if is_pending m then claim_for codecs m now w.worker_id w.lease else m in
          if not (is_in_flight m') then (nothing_done, w, m') else publish_message w now m')

  -- The loop over `messages.iter_mut().take(n)`.
  unfoldable pub batch_loop :
      OutboxWorker P
      → ℕ
      → DrainResult
      → ℕ
      → List OutboxMessage
      → DrainResult × OutboxWorker P × List OutboxMessage
  unfolding process_message
  batch_loop w now d n [] = (d, w, [])
  batch_loop w now d zero (m ∷ ms) = (d, w, m ∷ ms)
  batch_loop w now d (suc n) (m ∷ ms) =
      let (r, w', m') = process_message w now m in
      let (d', w'', ms') = batch_loop w' now (add_result d r) n ms in (d', w'', m' ∷ ms')

  unfoldable pub process_batch :
      OutboxWorker P → ℕ → List OutboxMessage → DrainResult × OutboxWorker P × List OutboxMessage
  unfolding batch_loop
  process_batch w now ms = batch_loop w now nothing_drained w.batch_size ms
