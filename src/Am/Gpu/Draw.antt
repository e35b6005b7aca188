-- ===== src/Am/Gpu/Draw.antt =====
-- Which pixels gpu_fbdraw() changes.
