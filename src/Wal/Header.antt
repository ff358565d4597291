-- ===== src/Wal/Header.antt =====
-- include/openmatch/om_wal.h: the packed header of a record of the log.
use veloxmatch.Base.{ℕ, ◌<◌, ◌≡◌, ◌≢◌, arith}
use veloxmatch.Wal.{pack_header, header_seq, header_type, header_len, max_sequence}

-- The three fields of a header are read back as they were packed, and the header of a record is
-- never 0, which is what replay takes for padding. The sequence number is below 2 ^ 40 and not 0,
-- the type is a byte, and the length has 16 bits.
pub pack_header_lem :
    (seq type len : ℕ)
    → 0 < seq
    → seq < max_sequence
    → type < 256
    → len < 65536
    → let packed = pack_header seq type len in
      (header_seq packed ≡ seq)
      × (header_type packed ≡ type)
      × (header_len packed ≡ len)
      × (packed ≢ 0)
pack_header_lem seq type len pos s t l =
    (omega arith, omega arith, omega arith, λ e. omega (arith, e))
