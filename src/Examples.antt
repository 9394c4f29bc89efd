-- ===== src/Examples.antt =====
-- Runs of the model, and each theorem at a concrete input.
mod Archive
mod Streams
mod Disk
mod Conversations
mod Commits
mod Watchers
mod Startups
