-- ===== src/Tests.antt =====
-- Examples: each theorem with conditions at a concrete input that meets them.
mod Toy
mod Data
mod Drive
mod Fields
mod Rotation
mod Acks
mod Rounds
mod Restarts
mod Stores
mod Lights
mod Links
mod Repeats
mod Pins
mod Crashes
mod Rules
