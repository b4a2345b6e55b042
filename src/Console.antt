-- ===== src/Console.antt =====
-- src/bfc_tunnel/console/codec.hpp, parser.hpp and table.hpp: the texts of the console.
-- A text is the list of its bytes.
pub mod Text
pub mod Base64
pub mod Names
pub mod Tokens
pub mod Table
pub mod Address
mod Examples
