-- ===== src/Network.antt =====
-- trikNetwork: the message framing of a connection, and the mailbox that is built on it.
pub mod Framing
pub mod Lines
pub mod Connection
pub mod MailboxConnection
pub mod TrikServer
pub mod MailboxServer
