-- ===== src/Tests.antt =====
-- Runs of the model on concrete inputs, and each property at a concrete input.
mod Samples
mod Runs
mod Queue
mod Failures
mod Net
mod Scheduling
mod Scores
mod Sitemaps
mod Walks
mod Offers
mod Boards
mod Pracuj
