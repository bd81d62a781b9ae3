-- ===== src/Decimal.antt =====
-- `decimal.Decimal` as the program uses it: an interface of operations with the laws of exact
-- arithmetic. Two decimals of one numeric value are one value, as `==` has them.
mod Ops
pub mod Order
pub mod Ring
pub mod Integers
unfoldable pub use Ops.*
pub use Order.*
pub use Ring.*
