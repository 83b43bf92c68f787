-- ===== src/Tests.antt =====
-- Runs of the model and instances of the theorems, by part.
mod Resp
mod Storage
mod Server
mod Memory
mod Strings
mod Zsets
mod Hashes
mod Lists
mod Sets
