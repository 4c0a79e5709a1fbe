-- ===== src/Host.antt =====
-- internal/host: the capability checks between a tool and the store, the network and the vault.
pub mod Text
pub mod Address
pub mod Broker
pub mod Dispatcher
