-- ===== src/Hub.antt =====
-- hub/: the node that the components make up.
pub mod NodeIndexCache
mod Examples
