-- ===== src/Examples.antt =====
-- Runs of the models on small inputs, and the theorems at inputs that meet their hypotheses.
mod Util
mod Source
mod Chunks
mod Protocol
mod Framing
mod Server
mod Memory
mod Monitor
mod Pinger
mod Remote
mod Local
mod Connection
mod Http
mod Domain
mod Package
