-- ===== src/Gateway.antt =====
-- deploy/uno-q/plantlens_app/python/passive_gateway.py: what the passive listener makes of a captured
-- byte stream. A byte is a number; the bytes from `offset` on are a list of their own.
pub mod Scan
pub mod Decode
pub mod Starts
pub mod Recover
pub mod Safe
