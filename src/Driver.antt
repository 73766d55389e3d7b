-- ===== src/Driver.antt =====
-- The C++ driver (numark-ns6): the parts of it that decide, count and queue, each in a module of its own.
-- The classes keep their members in records; a member function is a function from the record.
pub mod Clients
pub mod Schedule
pub mod Packets
pub mod Input
pub mod Output
pub mod Worker
