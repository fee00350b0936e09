-- ===== src/Elections.antt =====
-- The election engine under `elections/`, over the tables of voting/models.py and
-- elections/models.py.
pub mod Model
pub mod Tally
pub mod Ballot
pub mod Lifecycle
pub mod Casting
pub mod Eligibility
