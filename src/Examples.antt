-- ===== src/Examples.antt =====
-- The theorems at concrete values, where their hypotheses hold.
mod Compact
mod Journeys
mod Widgets
mod Settling
mod Launching
mod Texts
mod Store
mod Keys
mod Pages
mod Accounts
mod Syncing
mod Online
