-- ===== src/Examples.antt =====
-- Concrete inputs: tests of the definitions, and the theorems applied where their hypotheses hold.
mod Collisions
mod Prune
mod Listing
mod Routes
mod Values
mod Controller
mod Render
mod Passes
mod Success
mod Program
mod Client
mod Document
mod Status
mod Access
