-- ===== src/Json.antt =====
-- JSON values and the text that `json.dumps(value, sort_keys=True, separators=(",", ":"),
-- ensure_ascii=False)` prints for them, the text behind every digest of
-- valp_cli/protocol_kernel.py. A Python text is taken to hold Unicode scalar values only.
mod Text
pub mod Value
pub mod OneLine
unfoldable pub use Text.{decimal, quoted, join, sorted, insert_by, text_lt}
pub use Value.{Json, null, int, str, arr, obj, Items, Fields, items, fields}
unfoldable pub use Value.{dumps}
