-- ===== src/Paths.antt =====
-- Paths as byte strings and the iteration over their components from both ends
-- (crates/common/ov6_types/src/path/{mod,path_buf}.rs).
pub mod Slices
pub mod Components
pub mod Segments
pub mod Front
pub mod Back
pub mod Ends
pub mod Path
pub mod Calls
pub mod Buf
pub mod Leaves
pub mod Pop
pub mod Prefix
pub mod Prefixes
pub mod Extension
mod Tests
