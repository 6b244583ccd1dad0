-- ===== src/Net.antt =====
-- Networking (src/net).
pub mod SocketAddr
pub mod Resolver
pub mod ToSocketAddrs
pub mod Attempts
pub mod TcpStream
pub mod TcpListener
