-- ===== src/Client.antt =====
-- lib/client.go, lib/identity.go, lib/signer.go and lib/verifier.go: the client library; and the
-- commands of cli/client.
pub mod Url
pub mod Http
pub mod Identity
pub mod Enrolling
pub mod Files
pub mod Sent
pub mod Registering
pub mod Revoking
pub mod Tls
pub mod Unsupported
pub mod Commands
pub mod Enrolled
pub mod Reenrolling
