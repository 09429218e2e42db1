-- ===== src/StrictJson.antt =====
-- strict_json.py: the bounds on a JSON text before it is parsed, and the hooks of the parser.
pub mod Scan
pub mod Lexemes
pub mod State
pub mod Steps
pub mod Preflight
pub mod Hooks
