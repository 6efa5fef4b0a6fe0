-- ===== src/Vm.antt =====
-- The package vm: packets, tables, the program of rules, and the check of a packet against it.
pub mod Packet
pub mod Network
pub mod Machine
pub mod Program
pub mod Tables
pub mod Build
pub mod Fields
pub mod Match
pub mod Check
