-- ===== src/Tests.antt =====
-- Tests and the theorems at concrete inputs.
pub mod Scene
pub mod Accepted
mod Frames
pub mod Exchange
mod Parts
mod Runs
mod Requests
mod Hardware
mod Sessions
mod Files
mod Program
mod Looped
mod Printed
