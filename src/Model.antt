-- ===== src/Model.antt =====
-- internal/model/types.go: the program's data types.
pub mod Values
pub mod Enums
pub mod Records
pub use Values.{Json, Items, Fields, null, bool, num, int, str, arr, obj, nil, cons, end, field}
pub use Enums.*
pub use Records.*
