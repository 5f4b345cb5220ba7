-- ===== src/Tests/Entities.antt =====
-- Inputs for src/entity/: an entity that digests, and upcasters.
use sourced_rust.Prelude.{ℕ, ◌≡◌, refl, some, List, [], ◌∷◌, map, arith}
use sourced_rust.Bitcode.{Codec}
use sourced_rust.Entity.{Entity, EventRecord, with_id, new, new_record, new_events}
use sourced_rust.Entity.Commands.{
  Command, digests, digests_v, digests_empty, marks_committed, sets_meta, run,
}
use sourced_rust.Entity.WellFormed.{IsWellFormed, run-IsWellFormed}
use sourced_rust.Entity.History.{Log, Refines, log_run, summary, new_events-run}
use sourced_rust.Entity.Upcaster.{
  EventUpcaster, upcast_events, max_version, AllUpcast, upcast_events_total,
}
use sourced_rust.Tests.Codecs.{number_codec}

abbrev pub unit_codec : Codec (Unit {0})
unit_codec = record { serialize = λ x. []; deserialize = λ bs. some tt }

abbrev pub todo : Entity
todo = with_id "todo-1" 5

-- Two events, a commit, and a third event with the metadata that was set before.
abbrev day : List (ℕ × Command ℕ)
day =
    (6, digests "Created" 1)
    ∷ (7, sets_meta "correlation_id" "req-1")
    ∷ (8, digests_v "Renamed" 2 4)
    ∷ (9, marks_committed)
    ∷ (10, digests_empty "Done")
    ∷ []

run-IsWellFormed_example : IsWellFormed (run number_codec unit_codec todo day)
unfolding with_id new
run-IsWellFormed_example =
    run-IsWellFormed number_codec unit_codec todo day
      (record { counted = refl; committed = omega arith; numbered = tt })

abbrev no_log : Log
no_log = record { saved = []; pending = [] }

new_events-run_example :
    Refines (run number_codec unit_codec todo day) (log_run no_log day)
    × ((xs : List EventRecord) × (new_events (run number_codec unit_codec todo day) ≡ some xs)
        × (map summary xs ≡ (log_run no_log day).pending))
unfolding with_id new
new_events-run_example =
    new_events-run number_codec unit_codec todo no_log day
      (record { events = refl; saved = refl; counted = refl; records = refl })

-- A price in units becomes one in cents, and then gets a currency.
abbrev to_cents : EventUpcaster
to_cents = record {
  event_type = "Priced";
  from_version = 1;
  to_version = 2;
  transform = λ bs. 0 ∷ bs;
}

abbrev with_currency : EventUpcaster
with_currency = record {
  event_type = "Priced";
  from_version = 2;
  to_version = 3;
  transform = λ bs. 7 ∷ bs;
}

abbrev upcasters : List EventUpcaster
upcasters = with_currency ∷ to_cents ∷ []

abbrev priced : List EventRecord
priced = new_record "Priced" (5 ∷ []) 1 9 ∷ new_record "Sold" [] 2 9 ∷ []

abbrev repriced : List EventRecord
repriced =
    record (new_record "Priced" (7 ∷ 0 ∷ 5 ∷ []) 1 9) { event_version = 3 }
    ∷ new_record "Sold" [] 2 9
    ∷ []

upcast_events_total_example :
    (rs : List EventRecord) × (upcast_events 4 upcasters priced ≡ some rs)
    × AllUpcast upcasters priced rs
unfolding max_version
upcast_events_total_example =
    upcast_events_total 4 upcasters priced (omega arith, (omega arith, tt)) (omega arith)
