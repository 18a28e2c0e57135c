-- ===== src/Tests.antt =====
-- Concrete inputs at which the theorems of the other modules apply.
mod Samples
mod Users
mod Logins
mod Requests
mod Keys
mod Issuing
mod Tokens
mod Starting
mod Directory
mod Clients
mod Batches
mod Enrolling
mod Commanding
mod Revoking
mod Certificates
mod Signatures
mod Serving
