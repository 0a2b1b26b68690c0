-- ===== src/Tests.antt =====
-- Runs of the models at concrete inputs, and the theorems applied to them.
mod Trail
mod Clauses
mod Watches
mod Requirements
mod Maps
mod Walks
mod Assertions
mod Adding
mod Conflicts
mod Helpers
mod Variables
mod Gates
