-- ===== src/Yadnp3.antt =====
-- The adapter over yadnp3 (OpenDNP3), src/dnp3_gateway/adapters/dnp3_yadnp3_master.py. Cache is the
-- class _DeviceCache, each method of which is one step under its lock; Read is the body of
-- `read_device` on it, and Reader the masters of all devices.
pub mod Cache
pub mod Read
pub mod Keeps
pub mod Traces
pub mod Invariant
pub mod Known
pub mod Values
pub mod Quiet
pub mod Deltas
pub mod Delivers
pub mod Outage
pub mod Race
pub mod Callbacks
pub mod Reader
pub mod Masters
pub mod Polls
