-- ===== src/CyberArk.antt =====
-- pkg/client/client_cyberark.go: the snapshot that is uploaded to CyberArk, and
-- internal/cyberark and internal/envelope/keyfetch: the services, the login and the keys.
pub mod Snapshot
pub mod Minimize
pub mod Publish
pub mod Upload
pub mod ServiceDiscovery
pub mod Identity
pub mod KeyFetch
pub mod Envelope
pub mod Connect
pub mod Tests
pub mod UploadTests
pub mod LoginTests
pub mod ConnectTests
