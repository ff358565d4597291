-- ===== src/Wal/Tests.antt =====
-- The writer of the log of src/om_wal.c at small sizes, and its theorems there.
use veloxmatch.Base.{◌≡◌, ◌≢◌, refl, true, false, none, some, [], ◌∷◌, arith, length}
use veloxmatch.Wal.{
  Wal, Grants, Error, bytes, crc32_bits, crc32_loop, crc32_compute, append, flush, cancel,
  order_data, record_bytes, pack_header, header_seq, header_type, header_len,
}
use veloxmatch.Wal.Header.{pack_header_lem}
use veloxmatch.Wal.Writer.{IsWal, AfterAppend, append_lem}

abbrev granted : Grants
granted = record { fsync = true; reopen = true; write = true }

abbrev new_log : Wal
new_log = record {
  last_error = none;
  buffer = [];
  buffer_size = 4096;
  sequence = 1;
  file_offset = 0;
  file_index = 0;
  file = [];
  enable_crc32 = true;
  has_pattern = false;
  wal_max_file_size = 0;
}

-- The check value of this CRC: that of the digits 1 to 9.
crc32_runs : crc32_compute (49 ∷ 50 ∷ 51 ∷ 52 ∷ 53 ∷ 54 ∷ 55 ∷ 56 ∷ 57 ∷ []) ≡ 0xCBF43926
unfolding crc32_compute crc32_loop crc32_bits
crc32_runs = refl

append_runs :
    ((append granted new_log 128 (7 ∷ [])).0 ≡ 1)
    × (length (cancel granted new_log 5 9 3 0).1.buffer ≡ 36)
    × ((append granted (record new_log { last_error = some Error.wal_write }) 128 []).0 ≡ 0)
unfolding append cancel order_data flush record_bytes bytes crc32_compute crc32_loop crc32_bits
append_runs = (refl, refl, refl)

new_log-IsWal : IsWal new_log
new_log-IsWal = record { blocks = refl; fits = omega arith; starts = omega arith }

append_lem_example :
    AfterAppend new_log 128 (7 ∷ []) (append granted new_log 128 (7 ∷ []))
    × IsWal (append granted new_log 128 (7 ∷ [])).1
append_lem_example = append_lem granted new_log 128 (7 ∷ []) new_log-IsWal

pack_header_lem_example :
    let packed = pack_header 77 128 300 in
    (header_seq packed ≡ 77) × (header_type packed ≡ 128) × (header_len packed ≡ 300) × (packed ≢ 0)
pack_header_lem_example =
    pack_header_lem 77 128 300 (omega arith) (omega arith) (omega arith) (omega arith)
