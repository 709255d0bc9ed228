-- ===== src/Json.antt =====
-- The values that Python's `json` reads and writes: what inputs, outputs, schemas and action records
-- are made of. A finite float is a binary fraction, so it is kept exactly: `float m k` is m / 2^k.
-- The values are immutable here, so `copy.deepcopy` is the identity.
mod Int
mod Values
pub mod Compare
pub use Int.{ℤ, pos, negsuc, pos_part, neg_part}
pub use Values.{Json, Items, Fields, null, bool, int, float, str, arr, obj, nil, cons, end, field}
unfoldable pub use Values.{get_field, set_field, get_item, texts}
