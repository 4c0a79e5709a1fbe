-- ===== src/Registry.antt =====
-- internal/registry: manifests, grants, signatures, the signed catalog and its client.
pub mod Manifest
pub mod Sign
pub mod Tools
pub mod Index
pub mod Publish
pub mod Client
