-- ===== src/Devirt.antt =====
-- include/vardoger/dex/devirt_rebuild.hpp: rebuilding Dalvik code from the decoded log of a packer's
-- virtual machine. Table and Encode have the assembler,
-- Families, Methods, Signatures and Classify what comes before it, Rebuild what is made of it.
pub mod Table
pub mod Encode
pub mod Families
pub mod Methods
pub mod Signatures
pub mod Params
pub mod Classify
pub mod Counts
pub mod Sorts
pub mod Ranks
pub mod Runs
pub mod Bodies
pub mod Places
pub mod Meanings
pub mod Plains
pub mod Walks
pub mod Rebuild
pub mod Rebuilt
pub mod Known
pub mod Sound
pub mod Layout
pub mod Fetches
pub mod Files
pub mod Codes
pub mod Decoded
pub mod Decoding
pub mod Jumps
pub mod Branching
pub mod Landing
