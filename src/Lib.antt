-- ===== src/Lib.antt =====
-- SecureVault, a password manager: a browser client (secure-vault/apps/web, TypeScript) that keeps the
-- vault in memory, encrypts it under a random vault encryption key (VEK), and uploads each snapshot to a
-- server (secure-vault/crates/api, Rust) that stores ciphertext and versions only.
--
-- The parts and the files that model them, with paths from secure-vault/apps/web:
--  Prelude, and the modules below it: numbers, lists, and JavaScript strings as lists of code points
--  Password, Recovery, Base64, Crypto: lib/crypto.ts (generatePassword, calculateEntropy,
--    getPasswordStrength; generateRecoverySecret, normalizeRecoverySecret; b64encode, b64decode;
--    deriveVaultKey, deriveRecoveryKey, wrapRawKey, unwrapRawKey, encryptString, decryptString);
--    Base64 has the base64url codec of lib/passkeys.ts too
--  Utf8, Json, Platform: what the browser provides; TextEncoder and TextDecoder are written out, JSON
--    values are a data type, and WebCrypto and the text of JSON are a record of operations and laws
--  Vault: hooks/useVault.ts and hooks/useAutoLock.ts; the store is a record, an action a function on it
--  Envelope, VaultKeys, Transfer: lib/vaultEnvelope.ts, lib/vaultKeys.ts, lib/vaultTransfer.ts
--  Api: lib/api.ts, the request function and the table of calls
--  Sync: hooks/useVaultSync.tsx; the refs and the operations that wait are a record, each stretch of code
--    between two awaits (of the encryption, the upload, the reload, the decryption) is a function, and
--    Sync.Steps is the relation of all orders of events
--  Server: crates/api/src/routes/vault.rs, one row and its newest snapshot; Server.Register is the
--    register that it implements
--  Unlock, Register, Settings: app/unlock/page.tsx, app/register/page.tsx, app/settings/page.tsx; a
--    handler is a function of the page, the store, the answers of the server and the random bytes
--  Account, Health: the account form and pages; the figures of app/security/page.tsx,
--    app/dashboard/page.tsx and app/vault/page.tsx, and the lists of the latter two
--  Passkeys: lib/passkeys.ts, with the prompt of the browser as a parameter
--  Generator, Clipboard: components/PasswordGenerator.tsx, components/VaultItemCard.tsx
--  Kit: the emergency kit of app/register/page.tsx and app/settings/page.tsx
--  Percent: the escapes of URLs in lib/breaches.ts and lib/api.ts
--  Shell: components/Sidebar.tsx, components/SecureX.tsx (BottomNav), components/SyncStatus.tsx
--  Launch: scripts/dev.mjs, over a record of what Docker, cargo, npm, the network and the clock do;
--    Launch.Stopped has what Docker documents of its containers
--  Seed: scripts/seed-demo.mjs; Journey: a new vault from either maker over Server to Unlock
--  Breach: lib/breaches.ts and the scans of app/monitor/page.tsx, for passwords and e-mail addresses;
--    Breach.Watching says when the latter start
--  Session: hooks/useAuth.ts and the sign-in of app/login/page.tsx
--  Admin: components/admin/AdminShell.tsx, app/admin/audit/page.tsx, app/admin/users/page.tsx and
--    app/devices/page.tsx, their guard, paging and actions; Admin.Auditing has the fetches of the audit log
--  Samples, Examples: concrete values, and the theorems at them
--
-- How they interact: the pages and Sync act on the one store of Vault; Sync and the pages send what
-- Envelope and Crypto make through Api to Server; Unlock and Register open the store with a key of
-- VaultKeys; Transfer and Settings write and read export files.
--
-- Conventions: a promise that rejects is `none`, an error constructor or the message of the error; random
-- bytes and times are arguments; numbers are natural numbers, as the code keeps them; the entropy's
-- logarithm is read exactly, without the rounding of floating point. Unicode case tables outside ASCII, and
-- the properties that decide the small form of a capital sigma, are a parameter. A theorem about
-- ciphertexts takes the laws of AES-GCM as a hypothesis (a forged tag does not occur), and those about JSON
-- that the value at hand is read back; Platform.Toy has these laws. The hypothesis on Docker is
-- Launch.Stopped.IsDocker.
-- Fuel: group_chars is given the length of its text, which is no less than the number of groups; the
-- launcher's loops are given a round for each sleep up to their deadline; floor_log2 is given its
-- argument, decimal one more than the number; each is enough for the loop.
--
-- Not modelled: rendering, navigation beyond the routes that a handler pushes, and the saving of
-- downloaded texts; of the server all but the vault routes, and there the database, sessions, the audit
-- log, and the bound of the i32 versions, which an account reaches after 2^31 - 1 updates.
pub mod Prelude
pub mod Base64
pub mod Password
pub mod Recovery
pub mod Vault
pub mod Health
pub mod Account
pub mod Utf8
pub mod Json
pub mod Platform
pub mod Crypto
pub mod Envelope
pub mod Api
pub mod VaultKeys
pub mod Server
pub mod Sync
pub mod Unlock
pub mod Transfer
pub mod Register
pub mod Settings
pub mod Samples
pub mod Percent
pub mod Breach
pub mod Passkeys
pub mod Session
pub mod Launch
pub mod Shell
pub mod Admin
pub mod Kit
pub mod Journey
pub mod Seed
pub mod Clipboard
pub mod Generator
pub mod Examples
