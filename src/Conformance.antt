-- ===== src/Conformance.antt =====
-- The unit tests of the repository as statements about the model, each with a run that proves it. An
-- `unwrap()` is the equation of its result with `ok`.
mod Flows
mod Streams
mod Managers
mod Schedules
mod Frames
mod Parsers
mod Packets
