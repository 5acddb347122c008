-- ===== src/Tests.antt =====
-- Runs of the models on concrete inputs, and the theorems at concrete inputs.
mod Numbers
mod Constants
mod Texts
mod Flows
mod Identities
mod Layouts
mod Types
mod Throws
mod Callables
mod Boxes
