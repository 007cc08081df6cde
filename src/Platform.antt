-- ===== src/Platform.antt =====
-- What the browser provides and the sources only call: WebCrypto (PBKDF2 and AES-256-GCM) and the
-- text format of JSON. The operations are the fields of `Platform`; what the code relies on are the
-- laws of `IsAuthenticated`, which a theorem takes as a hypothesis where it needs them.
mod Interface
pub mod Toy
pub use Interface.*
