-- ===== src/Sources.antt =====
-- The sources, pkg/sources.
pub mod Answers
pub mod OpenBgpd
pub mod Birdwatcher
