-- ===== src/Sctp/Faults.antt =====
-- What SCTP(buf) of dpkt/sctp.py raises.
use dpkt_ng.Base.{
  ℕ, zero, suc, ◌<◌, ◌≤◌, ◌==◌, ◌≡◌, false, List, [], ◌∷◌, length, length-drop, drop, arith,
}
use dpkt_ng.Base.Results.{returns}
use dpkt_ng.Sctp.{
  chunk_sizes, chunk_unpack, chunk_init, chunk_len, read_chunks, sctp_sizes, sctp_unpack, sctp_init,
}
use dpkt_ng.Packet.Faults.{OnlyNeedData, bind-OnlyNeedData, header-OnlyNeedData, if-OnlyNeedData}

chunk_init-OnlyNeedData : (buf : List ℕ) → OnlyNeedData (chunk_init buf)
unfolding chunk_init chunk_unpack
chunk_init-OnlyNeedData buf = header-OnlyNeedData chunk_sizes buf _ (λ p. tt)

not_zero : (n : ℕ) → (n == 0) ≡ false → 0 < n
not_zero n e = ground arith

read_chunks-OnlyNeedData :
    (fuel : ℕ) (data' : List ℕ) → length data' ≤ fuel → OnlyNeedData (read_chunks fuel data')
unfolding read_chunks
read_chunks-OnlyNeedData fuel [] h = tt
read_chunks-OnlyNeedData zero (b ∷ data') h = absurd (omega arith)
read_chunks-OnlyNeedData (suc fuel) (b ∷ data') h =
    bind-OnlyNeedData (chunk_init (b ∷ data')) _ (chunk_init-OnlyNeedData (b ∷ data')) (λ chunk.
      if-OnlyNeedData (chunk_len chunk == 0) (returns (chunk ∷ [])) _ tt (λ e.
        bind-OnlyNeedData (read_chunks fuel (drop (chunk_len chunk) (b ∷ data'))) _
          (read_chunks-OnlyNeedData fuel (drop (chunk_len chunk) (b ∷ data')) (
            omega (arith, length-drop (chunk_len chunk) (b ∷ data'), not_zero (chunk_len chunk) e)))
          (λ chunks. tt)))

-- For every byte string, SCTP(buf) returns or raises NeedData.
pub sctp_init-OnlyNeedData : (buf : List ℕ) → OnlyNeedData (sctp_init buf)
unfolding sctp_init sctp_unpack
sctp_init-OnlyNeedData buf = header-OnlyNeedData sctp_sizes buf _ (λ p.
    bind-OnlyNeedData (read_chunks (length p.data') p.data') _
      (read_chunks-OnlyNeedData (length p.data') p.data' (omega arith)) (λ chunks. tt))
