-- ===== src/Backends.antt =====
-- The backends that the embedder implements in JavaScript, each with the file system behind it as a
-- parameter.
pub mod Embedder
pub mod Opfs
pub mod Node
pub mod JsImpl
pub mod IgnoreCase
