-- ===== src/Tests.antt =====
-- Concrete inputs: a file, what the code does with it, and the theorems at it.
mod Image
mod Loaded
mod Queries
mod Tables
mod Objects
mod Types
mod Runs
mod Release
mod Unit
mod Visits
mod Files
mod Demo
mod Mains
mod Dictionary
mod Names
