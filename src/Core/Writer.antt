-- ===== src/Core/Writer.antt =====
-- internal/core/writer.go: `Writer`, a growing byte buffer.
-- The methods of bytes.Buffer return no error, and a capacity is no part of the state.
-- A float32 is its IEEE 754 bit pattern, so math.Float32bits is the identity.
pub mod Laws
use go_draco.Common.{ℕ, List, [], ◌∷◌, ◌++◌, M, ok}
use go_draco.Common.Int.{ℤ, to_uint8, to_uint32}
use go_draco.Core.Words.{le_bytes}

pub record Writer : Type 0 where
  pub buf : List ℕ

unfoldable pub new_writer : ℕ → Writer
new_writer capacity = record { buf = [] }

unfoldable pub bytes : Writer → List ℕ
bytes w = w.buf

unfoldable pub write_bytes : List ℕ → M Writer (Unit {0})
write_bytes bs w = (ok tt, record w { buf = w.buf ++ bs })

unfoldable pub write_uint8 : ℕ → M Writer (Unit {0})
write_uint8 v w = (ok tt, record w { buf = w.buf ++ (v ∷ []) })

unfoldable pub write_int8 : ℤ → M Writer (Unit {0})
write_int8 v = write_uint8 (to_uint8 v)

unfoldable pub write_uint16 : ℕ → M Writer (Unit {0})
write_uint16 v = write_bytes (le_bytes 2 v)

unfoldable pub write_uint32 : ℕ → M Writer (Unit {0})
write_uint32 v = write_bytes (le_bytes 4 v)

unfoldable pub write_int32 : ℤ → M Writer (Unit {0})
write_int32 v = write_uint32 (to_uint32 v)

unfoldable pub write_float32 : ℕ → M Writer (Unit {0})
write_float32 v = write_uint32 v
