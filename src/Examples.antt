-- ===== src/Examples.antt =====
-- Runs of the models on concrete inputs.
mod Babies
mod Sensing
mod Cloud
mod Streams
mod Events
mod Retries
mod Goroutines
mod Relay
mod Clients
mod Camera
