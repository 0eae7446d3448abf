-- ===== src/Artifactd/Restart.antt =====
-- The counters over a restart: what Init reads after Apply stored the state.
