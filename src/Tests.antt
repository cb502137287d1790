-- ===== src/Tests.antt =====
-- Concrete runs of the definitions, and the theorems applied at concrete inputs.
mod Text
mod Wildcard
mod Dlist
mod Channel
mod Modes
mod Irc
mod Trigger
mod User
mod Egg
mod Bans
mod Config
mod Chandb
mod Dcc
mod Log
mod Tconfig
