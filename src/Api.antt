-- ===== src/Api.antt =====
-- cfzt_api.py: requests to Cloudflare and what becomes of the answers. The network, the random
-- bytes, the clock and the Unicode table behind `str` are parameters.
mod Messages
mod Requests
mod Dashboard
unfoldable pub use Messages.*
unfoldable pub use Requests.*
unfoldable pub use Dashboard.*
pub mod Errors
