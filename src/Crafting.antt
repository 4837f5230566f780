-- ===== src/Crafting.antt =====
-- examples/craft_state: a program that reads the state of the crafting window out of game events.
pub mod Names
pub mod EventPlay
pub mod Wire
pub mod RoundTrip
pub mod Main
pub mod Runs
