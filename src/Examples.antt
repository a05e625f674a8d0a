-- ===== src/Examples.antt =====
-- Runs of the scheduler on small tables, and the theorems applied to them.
mod Runs
mod Scheduling
mod Attempts
mod Credentials
mod Access
mod Identities
mod Profiles
mod Requeue
mod Sentences
mod Responses
mod Preparation
mod Stages
mod Dictionary
