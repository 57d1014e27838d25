-- ===== src/Examples.antt =====
-- Runs of the models on one small workspace, and the theorems at these inputs.
mod World
mod Runs
mod Reserving
mod Holding
mod Reaping
mod Running
mod Pumping
mod Posting
mod Binding
mod Depending
mod Sending
mod Granting
