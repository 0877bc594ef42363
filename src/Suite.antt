-- ===== src/Suite.antt =====
-- benchhandoff/model.py: the checks that `load_suite` makes of one parsed suite.toml. A value of TOML
-- is a `Json`; a date or a time, which every check treats as a value of the wrong type, is `null`.
pub mod Descriptors
pub mod Tasks
pub mod Parse
pub mod Order
pub mod Planned
pub mod Loop
pub mod Accepted
