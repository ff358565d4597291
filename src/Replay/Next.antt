-- ===== src/Replay/Next.antt =====
-- src/om_wal.c: `om_wal_replay_next`, a round of its loop first.
use veloxmatch.Base.{
  ℕ, zero, suc, ◌+◌, ◌-◌, ◌%◌, Bool, not, ◌&&◌, ◌||◌, Option, none, some, List, length, take, drop,
  ltb, leb, ◌==◌, if◌then◌else◌,
}
use veloxmatch.Wal.{wal_align, header_seq, header_type, header_len, crc32_compute}
use veloxmatch.Replay.{
  ReadError, Disk, Replay, Answer, ended, failed, got, Round, again, answer, insert_size,
  cancel_size, match_size, number, available, window, fill_until, advance_file, all_zero,
}

-- The branch for padding: all zeros up to the next block boundary.
unfoldable pub skip_padding : Disk → ℕ → Replay → Round × Replay
skip_padding d offset r =
    let pad = wal_align - offset % wal_align in
    let (good, filled) = fill_until d pad r in
    if not good
    then (answer (failed ReadError.wal_read), filled)
    else if ltb (available filled) pad
    then (answer (failed ReadError.wal_truncated), filled)
    else if not (all_zero (take pad (window filled)))
    then (answer (failed ReadError.wal_read), filled)
    else (again, record filled { buffer_pos = filled.buffer_pos + pad })

-- The test on tag and sequence number that refuses a header.
abbrev pub bad_header : ℕ → ℕ → ℕ → Bool
bad_header last tag seq =
    ltb tag 1
    || (ltb 6 tag && ltb tag 128)
    || (seq == 0)
    || (not (last == 0) && not (seq == last + 1))

-- The test on the length of the data, which refuses a record of a known type.
abbrev pub bad_layout : ℕ → List ℕ → Bool
bad_layout tag payload =
    let user_data_size = number (take 4 (drop 40 payload)) in
    let aux_data_size = number (take 4 (drop 44 payload)) in
    if tag == 1
    then ltb (length payload) insert_size
      || not (insert_size + user_data_size + aux_data_size == length payload)
    else ((tag == 2) && not (length payload == cancel_size))
      || ((tag == 3) && not (length payload == match_size))
      || ((tag == 5) && not (length payload == cancel_size))
      || ((tag == 6) && not (length payload == cancel_size))

-- The end of a round: the record is handed out.
abbrev pub hand_out : Disk → ℕ → ℕ → List ℕ → ℕ → Replay → Round × Replay
hand_out d tag seq payload total r =
    let after = record r { buffer_pos = r.buffer_pos + total; last_sequence = seq } in
    if leb 128 tag && d.handler tag payload
    then (answer (failed ReadError.wal_read), after)
    else (answer (got tag seq payload), after)

-- The checksum, if it is enabled, of a record that is in the buffer.
abbrev pub verify : Disk → ℕ → ℕ → ℕ → List ℕ → Replay → Round × Replay
verify d offset tag seq payload r =
    let size = 8 + length payload in
    let stored = number (take 4 (drop size (window r))) in
    let computed = crc32_compute (take size (window r)) in
    let noted = record r { last_record_offset = offset } in
    let checked = record noted { last_stored_crc = stored; last_computed_crc = computed } in
    if not r.enable_crc32
    then hand_out d tag seq payload size noted
    else if not (stored == computed)
    then (answer (failed ReadError.crc_mismatch), checked)
    else hand_out d tag seq payload (size + 4) checked

-- The branch for a record, whose header is `packed`.
unfoldable pub take_record : Disk → ℕ → ℕ → Replay → Round × Replay
take_record d offset packed r =
    let tag = header_type packed in
    let len = header_len packed in
    let seq = header_seq packed in
    let total = 8 + len + (if r.enable_crc32 then 4 else 0) in
    let (good, filled) = fill_until d total r in
    let payload = take len (drop 8 (window filled)) in
    if bad_header r.last_sequence tag seq
    then (answer (failed ReadError.wal_read), r)
    else if ltb r.buffer_size total
    then (answer (failed ReadError.wal_truncated), r)
    else if not good
    then (answer (failed ReadError.wal_read), filled)
    else if ltb (available filled) total
    then (answer (failed ReadError.wal_truncated), filled)
    else if bad_layout tag payload
    then (answer (failed ReadError.wal_read), filled)
    else verify d offset tag seq payload filled

-- A round from where the header is looked at.
unfoldable pub read_header : Disk → Replay → Round × Replay
read_header d r =
    let (good, filled) = fill_until d 8 r in
    let offset = filled.file_offset + filled.buffer_pos - length filled.buffer in
    let packed = if leb 8 (available filled) then number (take 8 (window filled)) else 0 in
    if not good
    then (answer (failed ReadError.wal_read), filled)
    else if available filled == 0
    then (again, filled)
    else if packed == 0
    then skip_padding d offset filled
    else take_record d offset packed filled

-- One round of the loop of `om_wal_replay_next`
unfoldable pub replay_round : Disk → Replay → Round × Replay
replay_round d r =
    if not ((available r == 0) && leb (length r.file) r.file_offset)
    then read_header d r
    else if not r.has_pattern
    then (answer ended, r)
    else elim (advance_file d r).0 [
      | some result ↦ (answer result, (advance_file d r).1)
      | none ↦ read_header d (advance_file d r).1
    ]

-- `om_wal_replay_next`; none if the fuel is used up
unfoldable pub replay_next : ℕ → Disk → Replay → Option Answer × Replay
replay_next zero d r = (none, r)
replay_next (suc n) d r = elim (replay_round d r).0 [
  | answer result ↦ (some result, (replay_round d r).1)
  | again ↦ replay_next n d (replay_round d r).1
]
