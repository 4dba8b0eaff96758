-- ===== src/Hlsl.antt =====
-- The small tables of Src/HLSL: shader models, component types, interpolation modes.
pub mod InterpolationMode
pub mod ShaderModel
pub mod CompType
pub mod SigPoint
pub mod Semantic
mod Tests
