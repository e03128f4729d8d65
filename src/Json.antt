-- ===== src/Json.antt =====
-- encoding/json: documents and the decoding of structs.
mod Doc
mod Decode
unfoldable pub use Doc.*
unfoldable pub use Decode.*
