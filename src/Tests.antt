-- ===== src/Tests.antt =====
-- Runs of the model and examples of its theorems.
mod Fixtures
mod Wires
mod Clients
mod Processes
mod Threads
mod Utilities
mod Lives
mod Clusters
mod Pings
mod Networks
mod Mains
mod Beats
mod Scripts
mod Pages
mod Programs
