-- ===== src/Server.antt =====
-- vmnetx/server: the instances that the server keeps, one for each virtual machine, and the server.
pub mod Instance
pub mod Registry
pub mod Connection
pub mod Http
