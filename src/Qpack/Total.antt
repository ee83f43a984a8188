-- ===== src/Qpack/Total.antt =====
-- The parsers of dpkt/qpack.py return for every byte string.
