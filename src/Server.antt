-- ===== src/Server.antt =====
-- nimbis/src: the server: its state, the commands and the connections.
pub mod Platform
pub mod Config
pub mod Sessions
pub mod Commands
pub mod Connection
