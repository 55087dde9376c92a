-- ===== src/Auth.antt =====
-- scamp/src/auth: who may call what. The cryptography and the clock are parameters.
pub mod Ticket
pub mod Authz
pub mod Services
