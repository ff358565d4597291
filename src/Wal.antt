-- ===== src/Wal.antt =====
-- src/om_wal.c and include/openmatch/om_wal.h: the writer of the write-ahead log. The buffer and
-- the file are lists of bytes. What the operating system answers to `fsync`, `open` and `write` is
-- an argument; after a failed write the file is not looked at again. The bits of a packed header do
-- not overlap, so its `|` is written as a sum, and a mask of low bits as a remainder. The callback
-- `post_write` only listens and is left out.
pub mod Writer
pub mod Header
pub mod Insert
mod Tests
use veloxmatch.Base.{
  ℕ, zero, suc, ◌+◌, ◌-◌, ◌*◌, ◌/◌, ◌%◌, Bool, true, false, not, ◌&&◌, ◌||◌, Option, none, some,
  List, [], ◌∷◌, ◌++◌, length, replicate, ltb, leb, ◌==◌, if◌then◌else◌, bit_xor, u16_mod, u64_mod,
}

-- The errors that `last_error` may hold.
pub data Error : Type 0 where
  wal_write wal_fsync wal_open : Error

-- `OmWal`, with the fields of its configuration that the writer reads; `has_pattern` tells whether
-- there is a `filename_pattern`.
pub record Wal : Type 0 where
  pub last_error : Option Error
  pub buffer : List ℕ
  pub buffer_size : ℕ
  pub sequence : ℕ
  pub file_offset : ℕ
  pub file_index : ℕ
  pub file : List ℕ
  pub enable_crc32 : Bool
  pub has_pattern : Bool
  pub wal_max_file_size : ℕ

-- What the operating system answers.
pub record Grants : Type 0 where
  pub fsync : Bool
  pub reopen : Bool
  pub write : Bool

-- WAL_ALIGN
abbrev pub wal_align : ℕ
wal_align = 4096

-- 2 ^ 40: sequence numbers are below it.
abbrev pub max_sequence : ℕ
max_sequence = 1099511627776

-- `n` bytes of a number, the low one first
unfoldable pub bytes : ℕ → ℕ → List ℕ
bytes zero k = []
bytes (suc n) k = k % 256 ∷ bytes n (k / 256)

-- `om_wal_pack_header`
abbrev pub pack_header : ℕ → ℕ → ℕ → ℕ
pack_header seq type len = seq * 16777216 % u64_mod + type % 256 * 65536 + len % u16_mod

-- `om_wal_header_seq`, `om_wal_header_type` and `om_wal_header_len`
abbrev pub header_seq : ℕ → ℕ
header_seq packed = packed / 16777216

abbrev pub header_type : ℕ → ℕ
header_type packed = packed / 65536 % 256

abbrev pub header_len : ℕ → ℕ
header_len packed = packed % 65536

-- The loop over the bits of one entry of `crc32_init_table`, with `n` rounds left.
unfoldable pub crc32_bits : ℕ → ℕ → ℕ
crc32_bits zero crc = crc
crc32_bits (suc n) crc =
    crc32_bits n (if crc % 2 == 1 then bit_xor (crc / 2) 0xEDB88320 else crc / 2)

-- The loop of `crc32_compute`; a table entry is computed where it is looked up.
unfoldable pub crc32_loop : List ℕ → ℕ → ℕ
crc32_loop [] crc = crc
crc32_loop (b ∷ payload) crc =
    crc32_loop payload (bit_xor (crc32_bits 8 (bit_xor crc b % 256)) (crc / 256))

-- `crc32_compute`
unfoldable pub crc32_compute : List ℕ → ℕ
crc32_compute payload = bit_xor (crc32_loop payload 0xFFFFFFFF) 0xFFFFFFFF

-- The size of a write of `used` bytes: whole blocks.
abbrev pub write_size : ℕ → ℕ
write_size used = (used + (wal_align - 1)) / wal_align * wal_align

-- Does `om_wal_flush` go on to the next file first?
abbrev pub full_file : Wal → Bool
full_file w =
    w.has_pattern
    && ltb 0 w.wal_max_file_size
    && ltb w.wal_max_file_size (w.file_offset + write_size (length w.buffer))

-- The write at the end of `om_wal_flush`.
abbrev pub write_out : Bool → Wal → Option Error × Wal
write_out accepted w =
    let size = write_size (length w.buffer) in
    let padded = w.buffer ++ replicate (size - length w.buffer) 0 in
    if not accepted
    then (some Error.wal_write, record w { last_error = some Error.wal_write })
    else (
      none,
      record w { buffer = []; file = w.file ++ padded; file_offset = w.file_offset + size },
    )

-- `om_wal_flush`
unfoldable pub flush : Grants → Wal → Option Error × Wal
flush g w =
    let next = record w { file_index = w.file_index + 1 } in
    elim w.last_error [
      | some e ↦ (some e, w)
      | none ↦
          if length w.buffer == 0
          then (none, w)
          else if not (full_file w)
          then write_out g.write w
          else if not g.fsync
          then (some Error.wal_fsync, record w { last_error = some Error.wal_fsync })
          else if not g.reopen
          then (some Error.wal_open, record next { last_error = some Error.wal_open })
          else write_out g.write (record next { file_offset = 0; file = [] })
    ]

-- The bytes of a record: header, data, and the checksum of both if it is enabled.
unfoldable pub record_bytes : Bool → ℕ → ℕ → List ℕ → List ℕ
record_bytes crc seq type payload =
    let body = bytes 8 (pack_header seq type (length payload)) ++ payload in
    if crc then body ++ bytes 4 (crc32_compute body) else body

-- WAL_HEADER_SIZE, the data, and WAL_CRC32_SIZE if it is enabled
abbrev pub total_size : Wal → List ℕ → ℕ
total_size w payload = 8 + length payload + (if w.enable_crc32 then 4 else 0)

-- The end of `wal_append`: the record is put into the buffer.
abbrev pub put_record : Wal → ℕ → List ℕ → ℕ × Wal
put_record w type payload = (
  w.sequence,
  record w {
    sequence = w.sequence + 1;
    buffer = w.buffer ++ record_bytes w.enable_crc32 w.sequence type payload;
  },
)

-- `wal_append`, which `om_wal_insert` repeats for its own record: the sequence number, 0 if the
-- record was not accepted, and the log.
unfoldable pub append : Grants → Wal → ℕ → List ℕ → ℕ × Wal
append g w type payload =
    let total = total_size w payload in
    let (error, flushed) = flush g w in
    elim w.last_error [
      | some e ↦ (0, w)
      | none ↦
          if ltb 65535 (length payload) || ltb w.buffer_size total || leb max_sequence w.sequence
          then (0, record w { last_error = some Error.wal_write })
          else if not (ltb w.buffer_size (length w.buffer + total))
          then put_record w type payload
          else elim error [ some e ↦ (0, flushed) | none ↦ put_record flushed type payload ]
    ]

-- `om_wal_append_custom`
unfoldable pub append_custom : Grants → Wal → ℕ → List ℕ → ℕ × Wal
append_custom g w type payload = if ltb type 128 then (0, w) else append g w type payload

-- The data of `OmWalCancel`, `OmWalDeactivate` and `OmWalActivate`, which have the same layout.
unfoldable pub order_data : ℕ → ℕ → ℕ → ℕ → List ℕ
order_data order_id timestamp slot_idx product_id =
    bytes 8 order_id ++ bytes 8 timestamp ++ bytes 4 slot_idx ++ bytes 2 product_id ++ bytes 2 0

-- `om_wal_cancel`, `om_wal_deactivate` and `om_wal_activate`
unfoldable pub cancel : Grants → Wal → ℕ → ℕ → ℕ → ℕ → ℕ × Wal
cancel g w now order_id slot product = append g w 2 (order_data order_id now slot product)

unfoldable pub deactivate : Grants → Wal → ℕ → ℕ → ℕ → ℕ → ℕ × Wal
deactivate g w now order_id slot product = append g w 5 (order_data order_id now slot product)

unfoldable pub activate : Grants → Wal → ℕ → ℕ → ℕ → ℕ → ℕ × Wal
activate g w now order_id slot product = append g w 6 (order_data order_id now slot product)

-- `om_wal_match`, with the fields of `OmWalMatch`
unfoldable pub match_trade : Grants → Wal → ℕ → ℕ → ℕ → ℕ → ℕ → ℕ → ℕ × Wal
match_trade g w maker taker price volume timestamp product = append g w 3 (
    bytes 8 maker
    ++ bytes 8 taker
    ++ bytes 8 price
    ++ bytes 8 volume
    ++ bytes 8 timestamp
    ++ bytes 2 product
    ++ bytes 6 0)

-- `om_wal_fsync`, which answers OM_ERR_WAL_FLUSH for any error of the flush.
pub data SyncResult : Type 0 where
  synced flush_failed : SyncResult
  failed_with : (error : Error) → SyncResult

unfoldable pub fsync : Grants → Bool → Wal → SyncResult × Wal
fsync g durable w = elim w.last_error [
  | some e ↦ (failed_with e, w)
  | none ↦ elim (flush g w).0 [
    | some e ↦ (flush_failed, (flush g w).1)
    | none ↦ if durable then (synced, (flush g w).1) else (
      failed_with Error.wal_fsync,
      record (flush g w).1 { last_error = some Error.wal_fsync },
    )
  ]
]
