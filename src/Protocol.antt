-- ===== src/Protocol.antt =====
-- vmnetx/protocol.py: the remote control protocol. Messages and their dispatch on both sides
-- (Message, Server, Client, Session), the byte stream below them (Socket, Framing) and the pinger.
pub mod Pinger
pub mod Message
pub mod Server
pub mod Client
pub mod Guards
pub mod Session
pub mod Socket
pub mod Framing
pub mod Transport
pub mod Forwarding
