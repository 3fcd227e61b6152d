-- ===== src/Samples.antt =====
-- The theorems at concrete inputs, and runs of the code, over a small platform that computes.
mod Toy
mod Values
mod Texts
mod Blocks
mod Ledger
mod Chain
mod Calls
mod Network
mod Storage
mod Node
mod Sync
mod Wallet
mod HttpServer
mod Sending
mod Serving
