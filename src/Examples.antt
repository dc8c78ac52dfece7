-- ===== src/Examples.antt =====
-- The theorems on the code of src/module.cpp, inc/wembed and src/intrinsics.cpp at concrete inputs.
pub mod Machine
pub mod Blocks
mod Reading
mod Emitting
mod Running
mod Compiling
mod Loading
mod Serving
mod Linking
