-- ===== src/Service.antt =====
-- The rows of a Session in the service's database, and the methods that change them.
pub mod Store
pub mod Intake
pub mod Jobs
pub mod Frozen
pub mod Results
pub mod Order
pub mod Runs
pub mod Methods
pub mod Sound
pub mod Leases
pub mod Completed
pub mod Claiming
pub mod Matching
