-- ===== src/Examples.antt =====
-- Tests of the definitions on concrete inputs, and instances of the theorems.
mod Basics
mod Logs
mod Files
mod Blocks
mod Names
mod Rebuilds
mod Adapter
mod Paths
mod Handles
mod Volumes
pub mod Reads
mod Cuts
