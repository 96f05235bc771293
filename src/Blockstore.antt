-- ===== src/Blockstore.antt =====
-- v2/blockstore: blockstores over a CAR file.
pub mod InsertionIndex
pub mod ReadOnly
pub mod ReadWrite
