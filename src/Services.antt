-- ===== src/Services.antt =====
-- The services that the program calls and does not implement, as interfaces: operations, and the
-- documented behaviour that the theorems rest on.
pub mod Redis
pub mod Rabbit
pub mod Web
pub mod Clients
pub mod MemoryClients
pub mod MemoryWeb
pub mod Json
pub mod Memory
pub mod MemoryBroker
