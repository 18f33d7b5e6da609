-- ===== src/Socket.antt =====
-- socket_server.h and socket_server.cpp: which hosts may connect, and the queue of print jobs.
pub mod Peers
pub mod Queue
pub mod Mailbox
pub mod Tests
