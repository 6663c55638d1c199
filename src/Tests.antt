-- ===== src/Tests.antt =====
-- Runs of the definitions on concrete inputs, and each theorem at an input that meets its
-- hypotheses.
mod Pipes
mod Threads
mod Waiting
mod Sleep
mod Completing
mod Joining
mod Pinned
mod Searching
mod Dependencies
mod NodeLists
mod NodeMachine
mod Allocating
mod Summing
mod Adding
mod Draining
