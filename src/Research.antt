-- ===== src/Research.antt =====
-- Research on the web: how pages are fetched, and how sources are scored.
pub mod Fetch
