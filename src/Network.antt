-- ===== src/Network.antt =====
-- network/: the pool of request threads and the event loops of the server.
pub mod ThreadPool
pub mod ConnectionManager
pub mod EpollLoop
pub mod TcpServer
mod Tests
