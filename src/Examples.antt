-- ===== src/Examples.antt =====
-- The theorems of the library at concrete values: toy instances of what is outside the repository, small
-- enough to compute with, and one example for each theorem.
pub mod Toy
pub mod Sealing
pub mod ToyWorld
pub mod Keys
pub mod Cluster
pub mod Client
pub mod Requests
pub mod Jobs
pub mod Commands
pub mod Start
pub mod Renewal
pub mod Worker
pub mod Delivery
pub mod Merge
pub mod Metrics
