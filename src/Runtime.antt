-- ===== src/Runtime.antt =====
-- What runs beside the compiled code: the memories, the tables, the intrinsics and the linking of
-- inc/wembed/context.hpp, src/context.cpp, src/intrinsics.cpp and src/posix.cpp.
pub mod Memory
pub mod Grow
pub mod Sized
pub mod Table
pub mod Remap
pub mod Link
pub mod Context
