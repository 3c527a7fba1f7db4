-- ===== src/Transform.antt =====
-- internal/transform: the transforms that turn predictions and corrections into values.
pub mod Wrap
pub mod Octahedron
pub mod Normal
