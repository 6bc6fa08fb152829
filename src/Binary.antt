-- ===== src/Binary.antt =====
-- in_binary.c: reading a trace from a file and saving it to one.
mod Stream
mod Read
mod Save
mod Format
mod Items
mod Reads
mod Damage
mod Tests
mod RoundTrip
mod Total
mod Parses
mod Written
