-- ===== src/Tests.antt =====
-- The theorems at concrete inputs, and runs of the code.
mod Sample
mod Scores
mod Rooms
mod Selector
mod Services
mod Bank
mod Tables
mod Results
mod Tokens
mod Api
mod Joins
mod Hosts
mod Live
mod Connections
mod Settings
