-- ===== src/Tests.antt =====
-- Concrete runs of the definitions, and the theorems at concrete inputs.
mod World
mod Codec
mod Headers
mod Sections
mod Indexes
mod Readers
mod Stores
mod Offsets
mod Disk
mod Filled
mod Resumed
mod Wrapped
mod Inspected
