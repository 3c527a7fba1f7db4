-- ===== src/Core/Writer/Laws.antt =====
-- What each method of `Writer` appends.
use go_draco.Common.{ℕ, refl, List, [], ◌∷◌}
use go_draco.Common.Int.{ℤ, to_uint32}
use go_draco.Core.Words.{le_bytes}
use go_draco.Core.Codec.{Writes}
use go_draco.Core.Writer.{write_bytes, write_uint8, write_uint16, write_uint32, write_int32}

pub write_bytes-Writes : (bs : List ℕ) → Writes bs (write_bytes bs)
unfolding write_bytes
write_bytes-Writes bs w = refl

pub write_uint8-Writes : (v : ℕ) → Writes (v ∷ []) (write_uint8 v)
unfolding write_uint8
write_uint8-Writes v w = refl

pub write_uint16-Writes : (v : ℕ) → Writes (le_bytes 2 v) (write_uint16 v)
unfolding write_uint16
write_uint16-Writes v = write_bytes-Writes (le_bytes 2 v)

pub write_uint32-Writes : (v : ℕ) → Writes (le_bytes 4 v) (write_uint32 v)
unfolding write_uint32
write_uint32-Writes v = write_bytes-Writes (le_bytes 4 v)

pub write_int32-Writes : (v : ℤ) → Writes (le_bytes 4 (to_uint32 v)) (write_int32 v)
unfolding write_int32
write_int32-Writes v = write_uint32-Writes (to_uint32 v)
