-- ===== src/Tests.antt =====
-- Runs of the model on concrete data, and the theorems at inputs where their hypotheses hold.
mod Samples
mod Rights
mod Requests
mod Rows
mod Hooks
mod SignIn
mod Pages
mod Streams
mod Contracts
mod Routes
mod Clicks
mod Flow
mod Live
mod Shown
