-- ===== src/Replay.antt =====
-- src/om_wal.c and include/openmatch/om_wal.h: the reader of the write-ahead log, which recovery
-- and the search for the last sequence number share. The valid bytes of the read buffer are a
-- list, `buffer_valid` its length; the file behind the descriptor is a list of bytes. How many
-- bytes a `read` delivers and what an `open` of the next file finds are arguments, and so is the
-- handler of user records.
pub mod Next
pub mod Fill
pub mod Codec
pub mod Turn
pub mod Rounds
pub mod Damage
pub mod Stream
pub mod Reading
pub mod Writing
pub mod RoundTrip
pub mod Ending
pub mod Layouts
pub mod Open
pub mod Continue
mod Tests
use veloxmatch.Base.{
  ℕ, zero, suc, ◌+◌, ◌-◌, ◌*◌, ◌/◌, ◌%◌, Bool, true, false, not, ◌&&◌, ◌||◌, Option, none, some,
  List, [], ◌∷◌, ◌++◌, length, take, drop, min, ltb, leb, ◌==◌, if◌then◌else◌, u32_mod,
}
use veloxmatch.Wal.{wal_align, header_seq, header_type, header_len, crc32_compute}

-- The errors of the reader: OM_ERR_WAL_READ, OM_ERR_WAL_TRUNCATED, OM_ERR_WAL_CRC_MISMATCH and
-- OM_ERR_NULL_PARAM.
pub data ReadError : Type 0 where
  wal_read wal_truncated crc_mismatch null_param : ReadError

-- What `open` finds under the name of the next file: the errno ENOENT, another error, or a file.
pub data Opening : Type 0 where
  missing refused : Opening
  opened : (file : List ℕ) → Opening

-- The system and the handler of user records. `read offset asked` is the number of bytes that
-- `read` delivers, 0 also for its errors; `handler` tells whether a handler rejects a record.
pub record Disk : Type 0 where
  pub read : ℕ → ℕ → ℕ
  pub open_index : ℕ → Opening
  pub handler : ℕ → List ℕ → Bool

-- `OmWalReplay`; `is_open` tells whether there is a descriptor, `has_pattern` whether there is a
-- `filename_pattern`.
pub record Replay : Type 0 where
  pub file : List ℕ
  pub is_open : Bool
  pub buffer : List ℕ
  pub buffer_size : ℕ
  pub buffer_pos : ℕ
  pub file_offset : ℕ
  pub file_index : ℕ
  pub last_sequence : ℕ
  pub eof : Bool
  pub has_pattern : Bool
  pub enable_crc32 : Bool
  pub last_stored_crc : ℕ
  pub last_computed_crc : ℕ
  pub last_record_offset : ℕ

-- What `om_wal_replay_next` answers: 0 at the end, an error, or 1 with a record.
pub data Answer : Type 0 where
  ended : Answer
  failed : (error : ReadError) → Answer
  got : (type seq : ℕ) → (payload : List ℕ) → Answer

-- A round of its loop gives an answer, or continues.
pub data Round : Type 0 where
  again : Round
  answer : (result : Answer) → Round

-- REPLAY_BUFFER_SIZE
abbrev pub replay_buffer_size : ℕ
replay_buffer_size = 1024 * 1024

-- sizeof(OmWalInsert), of OmWalCancel (and OmWalDeactivate, OmWalActivate) and of OmWalMatch
abbrev pub insert_size : ℕ
insert_size = 56

abbrev pub cancel_size : ℕ
cancel_size = 24

abbrev pub match_size : ℕ
match_size = 40

-- `om_wal_replay_init_with_config` for a file that opens
abbrev pub init : List ℕ → ℕ → Bool → Bool → Replay
init file index has_pattern disable_crc32 = record {
  file = file;
  is_open = true;
  buffer = [];
  buffer_size = replay_buffer_size;
  buffer_pos = 0;
  file_offset = 0;
  file_index = if has_pattern then index else 0;
  last_sequence = 0;
  eof = false;
  has_pattern = has_pattern;
  enable_crc32 = not disable_crc32;
  last_stored_crc = 0;
  last_computed_crc = 0;
  last_record_offset = 0;
}

-- The number that `memcpy` reads from bytes, the low one first.
unfoldable pub number : List ℕ → ℕ
number [] = 0
number (b ∷ bs) = b + 256 * number bs

-- `buffer_valid - buffer_pos`
abbrev pub available : Replay → ℕ
available r = length r.buffer - r.buffer_pos

-- The valid bytes from `buffer_pos` on.
abbrev pub window : Replay → List ℕ
window r = drop r.buffer_pos r.buffer

-- What `replay_fill_buffer` asks of `read`.
abbrev pub to_read : Replay → ℕ
to_read r = min (r.buffer_size - available r) (length r.file - r.file_offset)

-- `replay_fill_buffer` below the end of the file: true if bytes were read. The bytes that remain
-- are moved to the front even if none come.
unfoldable pub fill_buffer : Disk → Replay → Bool × Replay
fill_buffer d r =
    let n = d.read r.file_offset (to_read r) in
    if n == 0 then (false, record r { buffer = window r ++ drop (available r) r.buffer }) else (
      true,
      record r {
        buffer = window r ++ take n (drop r.file_offset r.file);
        buffer_pos = 0;
        file_offset = r.file_offset + n;
      },
    )

-- `while (available < wanted && file_offset < file_size) replay_fill_buffer`
unfoldable pub fill_loop : ℕ → Disk → ℕ → Replay → Bool × Replay
fill_loop zero d wanted r = (true, r)
fill_loop (suc n) d wanted r =
    if ltb (available r) wanted && ltb r.file_offset (length r.file)
    then elim (fill_buffer d r).0 [
      | true ↦ fill_loop n d wanted (fill_buffer d r).1
      | false ↦ fill_buffer d r
    ]
    else (true, r)

-- Every call of `read` that succeeds moves the offset on, so the bytes left are enough fuel.
abbrev pub fill_until : Disk → ℕ → Replay → Bool × Replay
fill_until d wanted r = fill_loop (length r.file - r.file_offset) d wanted r

-- `replay_advance_file`, with its answer if it is not 1
unfoldable pub advance_file : Disk → Replay → Option Answer × Replay
advance_file d r =
    let shut = record r { is_open = false; file_index = (r.file_index + 1) % u32_mod } in
    if not r.is_open
    then (some (failed ReadError.null_param), r)
    else elim (d.open_index shut.file_index) [
      | missing ↦ (some ended, record shut { eof = true })
      | refused ↦ (some (failed ReadError.wal_read), record shut { eof = true })
      | opened file ↦ (
        none,
        record shut {
          is_open = true;
          file = file;
          file_offset = 0;
          buffer = [];
          buffer_pos = 0;
          eof = false;
        },
      )
    ]

abbrev pub all_zero : List ℕ → Bool
all_zero [] = true
all_zero (b ∷ bs) = (b == 0) && all_zero bs
