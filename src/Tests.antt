-- ===== src/Tests.antt =====
-- Runs of the model on a small concrete system, and the theorems at concrete inputs.
mod Machine
mod Streams
mod Servers
mod Post
mod Cable
mod Tcp
mod Udp
mod Datagrams
mod Local
mod Addresses
mod Refusing
mod Orderly
mod Watch
