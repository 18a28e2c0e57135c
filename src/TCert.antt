-- ===== src/TCert.antt =====
-- lib/tcert: transaction certificates, their keys, extensions and encryption.
pub mod Padding
pub mod Cbc
pub mod Batch
pub mod Decimal
pub mod Extensions
pub mod Numbers
pub mod Loading
