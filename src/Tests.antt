-- ===== src/Tests.antt =====
-- The witnesses of the theorems, and the inputs that they run on.
mod Codecs
mod Emitters
mod Entities
mod Commits
mod Models
mod Snapshots
mod Messages
mod Workers
mod Locks
mod Queues
mod Builders
mod Services
mod Views
mod Generated
