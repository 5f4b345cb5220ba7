-- ===== src/Tests/Messages.antt =====
-- Inputs for src/outbox/: a message that is claimed, released, claimed again and published.
use sourced_rust.Prelude.{ℕ, ◌≡◌, refl, some, List, [], ◌∷◌, ok}
use sourced_rust.Aggregate.{hydrate}
use sourced_rust.HashMapRepo.{load}
use sourced_rust.Outbox.{
  OutboxMessage, pending, create, initialize, default_message, outbox_aggregate,
}
use sourced_rust.Outbox.Machine.{
  OutboxCommand, claims, completes, releases, fails, outbox_run, Lives, life_run, commands,
  outbox_run-Lives, create-Lives,
}
use sourced_rust.Outbox.Recording.{seen}
use sourced_rust.Outbox.Replay.{hydrate-outbox_run}
use sourced_rust.Tests.Codecs.{outbox_codecs, outbox_codecs-AreLossless}

abbrev work : List (ℕ × OutboxCommand)
work =
    (11, claims "worker-1" 60)
    ∷ (12, releases "busy")
    ∷ (13, completes)
    ∷ (14, claims "worker-2" 90)
    ∷ (15, completes)
    ∷ (16, fails "late")
    ∷ []

abbrev message : OutboxMessage
message = create outbox_codecs 10 "m1" "Created" (7 ∷ [])

outbox_run-Lives_example :
    Lives
      (outbox_run outbox_codecs message work)
      (life_run (record { status = pending; recorded = 1; claims = 0 }) (commands work))
outbox_run-Lives_example =
    outbox_run-Lives outbox_codecs message (record { status = pending; recorded = 1; claims = 0 })
      work (create-Lives outbox_codecs 10 "m1" "Created" (7 ∷ []))

abbrev tagged : OutboxMessage
tagged =
    initialize outbox_codecs (default_message 10) 10 "m1" "Created" (7 ∷ []) (some "orders")
      (("correlation_id", "req-1") ∷ [])

abbrev worked : OutboxMessage
worked = outbox_run outbox_codecs tagged work

hydrate-outbox_run_example :
    hydrate (outbox_aggregate outbox_codecs) 0 99 (load 99 worked.entity.id worked.entity.events)
    ≡ ok (seen worked (load 99 worked.entity.id worked.entity.events) 99)
hydrate-outbox_run_example =
    hydrate-outbox_run outbox_codecs outbox_codecs-AreLossless 10 "m1" "Created" (7 ∷ [])
      (some "orders") (("correlation_id", "req-1") ∷ []) worked work 0 99 refl
