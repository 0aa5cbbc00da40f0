-- ===== src/Tests.antt =====
-- The theorems at concrete inputs.
mod Data
mod Memories
mod Json
mod Cursors
mod Logins
mod Streams
mod Agents
mod Tools
mod Chats
mod Turns
mod Routes
