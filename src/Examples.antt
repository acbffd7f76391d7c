-- ===== src/Examples.antt =====
-- The theorems at concrete inputs: an airlock of two doors, a card, a packet and a PIN.
mod Data
mod Doors
mod Serial
mod Users
mod Access
mod Commands
mod Programs
mod Lobby
mod Wire
mod Tools
mod Readers
