-- ===== src/System.antt =====
-- The operating system below the library: the calls that it makes (`Defs`), how runs of code that
-- makes them end (`Returns`), and what the calls are documented to do (`Laws`).
mod Defs
pub mod Returns
pub mod Ends
pub mod Laws
pub mod Table
pub mod Always
pub use Defs.*
