-- ===== src/Tests.antt =====
-- Witnesses: each theorem with hypotheses, applied at a concrete input, with the libraries given by
-- concrete functions.
mod Codes
mod Tables
mod Demo
mod Scene
mod Steps
mod Claims
mod Engines
mod Rows
mod Handles
mod Builders
mod Programs
mod Replays
mod FanOuts
mod Progress
