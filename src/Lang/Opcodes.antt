-- ===== src/Lang/Opcodes.antt =====
-- The opcodes of inc/wembed/lang.hpp, by kind.
mod Control
mod Access
mod Compare
mod Arith
mod Convert
mod Numeric
pub use Control.*
pub use Access.*
pub use Compare.*
pub use Arith.*
pub use Convert.*
pub use Numeric.*
