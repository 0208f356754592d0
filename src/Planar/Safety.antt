-- ===== src/Planar/Safety.antt =====
-- src/wire/bitmap_planar.c: the decoder on arbitrary sources.
