-- ===== src/Proctor.antt =====
-- The proctor gate of the competitor portal: what the page concludes from the server's answer and
-- from the agent on this machine, and how it looks for that agent.
pub mod Types
pub mod Resolve
pub mod Loopback
