-- ===== src/Broker.antt =====
-- Session brokering: the gateway, which admits clients and holds the tunnels of agents, and the relay,
-- which joins the two halves of a session.
pub mod Pairing
pub mod Rendezvous
pub mod Tunnels
pub mod Launch
pub mod Tickets
pub mod Admission
mod Tests
