-- ===== src/Tests.antt =====
-- The theorems at concrete inputs, and runs of the code, those of the repository's own tests among
-- them.
mod Crc
mod Vector
mod Payload
mod Group
mod Hash
mod HashTable
mod Server
mod Client
mod Protocol
mod Terminate
mod Sweep
