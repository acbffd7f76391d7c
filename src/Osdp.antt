-- ===== src/Osdp.antt =====
-- readers/osdp/osdp.h and osdp.c: packets and their checksum, the commands that are built, and the
-- answers that are read. The serial port is outside: a packet that is sent or received is a value.
pub mod Table
pub mod Crc
pub mod Packet
pub mod Process
pub mod Dump
pub mod Port
