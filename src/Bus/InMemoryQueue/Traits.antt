-- ===== src/Bus/InMemoryQueue/Traits.antt =====
-- src/bus/in_memory_queue.rs: the queue as a publisher and as a sender; neither call fails.
use sourced_rust.Prelude.{ok}
use sourced_rust.Bus.{Bus}
use sourced_rust.Bus.InMemoryQueue.{Shared, publish, send}

unfoldable pub in_memory_bus : Bus Shared
unfolding publish send
in_memory_bus = record {
  publish = λ s e. (ok tt, publish s e);
  send = λ s queue e. (ok tt, send s queue e);
}
