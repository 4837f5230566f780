-- ===== src/Tests.antt =====
-- The theorems at concrete inputs, by component.
mod Data
mod Messages
mod Sharing
mod Frames
mod Streams
mod Interleaving
mod Sniffing
mod Subscribing
mod Lifecycle
mod Crafting
mod Device
mod Delivery
mod Printing
mod Shared
mod Assembly
