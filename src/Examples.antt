-- ===== src/Examples.antt =====
-- Concrete inputs for the theorems: a calendar, a store, and the calls made on them.
mod Setting
mod Texts
mod Stores
mod Appends
mod Producers
mod Removals
mod Names
mod Posts
mod Codec
mod Events
mod Journals
mod Deliveries
