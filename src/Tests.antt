-- ===== src/Tests.antt =====
-- Runs of the modelled code on small states.
mod Scene
mod NodeLists
mod Rounds
mod Lifetimes
mod Machine
mod Calls
mod Library
mod Crowd
mod Places
mod Boot
