-- ===== src/Replay/Tests.antt =====
-- The reader of src/om_wal.c on small files, and its theorems there.
use veloxmatch.Base.{
  ℕ, ◌<◌, ◌≡◌, ◌≢◌, refl, true, false, none, some, List, [], ◌∷◌, ◌++◌, arith, length, take, drop,
  inr,
}
use veloxmatch.Base.Result.{ok}
use veloxmatch.Wal.{Wal, Grants, append, flush, record_bytes, bytes, order_data}
use veloxmatch.Wal.Insert.{Slot, insert_data}
use veloxmatch.Replay.{Disk, Opening, ReadError, Replay, answer, ended, failed, init, number}
use veloxmatch.Replay.Next.{replay_round, replay_next, bad_layout}
use veloxmatch.Replay.Fill.{IsReading, IsReplay}
use veloxmatch.Replay.Turn.{IsRecord}
use veloxmatch.Replay.Stream.{Entry, replay_all, last_of}
use veloxmatch.Replay.RoundTrip.{Written, started, appended, IsData, replay_all-Written}
use veloxmatch.Replay.Damage.{replay_round-short_padding, replay_round-cut}
use veloxmatch.Replay.Ending.{replay_next-answers}
use veloxmatch.Replay.Open.{Config, init_wal, scan_loop}
use veloxmatch.Replay.Continue.{init_wal-continues, scan_loop-replay_all}
use veloxmatch.Replay.Layouts.{written_layouts}

-- A file whose every `read` delivers what it is asked for, and no further file.
abbrev whole_reads : Disk
whole_reads = record {
  read = λ offset asked. asked;
  open_index = λ index. Opening.missing;
  handler = λ type payload. false;
}

whole_reads-IsReading : IsReading whole_reads
whole_reads-IsReading = record {
  reads = λ offset asked pos. pos;
  within = λ offset asked. omega arith;
}

abbrev granted : Grants
granted = record { fsync = true; reopen = true; write = true }

abbrev new_log : Wal
new_log = record {
  last_error = none;
  buffer = [];
  buffer_size = 4096;
  sequence = 1;
  file_offset = 0;
  file_index = 0;
  file = [];
  enable_crc32 = false;
  has_pattern = false;
  wal_max_file_size = 0;
}

abbrev one_record : Wal
one_record = (append granted new_log 128 (7 ∷ [])).1

abbrev first_entry : Entry
first_entry = record { seq = 1; type = 128; payload = 7 ∷ [] }

first_number : (append granted new_log 128 (7 ∷ [])).0 ≡ 1
unfolding append flush
first_number = refl

one_flush : (flush granted one_record).0 ≡ none
unfolding append flush record_bytes bytes
one_flush = refl

one_flush_size : length (flush granted one_record).1.file < 5000
unfolding append flush record_bytes bytes
one_flush_size = omega arith

byte-IsData : IsData whole_reads 128 (7 ∷ [])
byte-IsData = record { known = refl; layout = refl; byte = omega arith; accepted = refl }

one_record-Written : Written whole_reads false one_record (first_entry ∷ [])
one_record-Written =
    appended granted new_log [] 128 (7 ∷ []) (started new_log refl refl refl refl refl refl)
      (λ e. ground (arith, e, first_number)) byte-IsData (inr (omega arith))

replay_all-Written_example :
    replay_all 2 5000 whole_reads (init (flush granted one_record).1.file 0 false true)
    ≡ (some ended, first_entry ∷ [])
replay_all-Written_example =
    replay_all-Written whole_reads true granted one_record (first_entry ∷ []) 5000
      whole_reads-IsReading one_record-Written one_flush one_flush_size

init-IsReplay : (file : List ℕ) → IsReplay (init file 0 false true)
init-IsReplay file = record {
  inside = omega arith;
  behind = omega arith;
  offset = omega arith;
  fits = omega arith;
  block = omega arith;
}

-- Four zeros at the end of a block, then the header of a cancel with number 2.
abbrev behind_zeros : List ℕ
behind_zeros = 0 ∷ 2 ∷ 2 ∷ 0 ∷ 0 ∷ 0 ∷ 0 ∷ []

abbrev short_padded : Replay
short_padded = init (0 ∷ 0 ∷ 0 ∷ 0 ∷ 24 ∷ behind_zeros) 0 false true

replay_round-short_padding_example :
    (replay_round whole_reads short_padded).0 ≡ answer (failed ReadError.wal_read)
replay_round-short_padding_example =
    replay_round-short_padding whole_reads 4 24 behind_zeros short_padded whole_reads-IsReading
      (init-IsReplay (0 ∷ 0 ∷ 0 ∷ 0 ∷ 24 ∷ behind_zeros)) (omega arith) (omega arith) (omega arith)
      (omega arith) refl

-- A record of two bytes of data, of which the last is lost.
abbrev cut_front : List ℕ
cut_front = 2 ∷ 0 ∷ 128 ∷ 1 ∷ 0 ∷ 0 ∷ 0 ∷ 0 ∷ 5 ∷ []

cut_whole : cut_front ++ (6 ∷ []) ≡ record_bytes false 1 128 (5 ∷ 6 ∷ [])
unfolding record_bytes bytes
cut_whole = refl

cut-IsRecord : IsRecord 0 1 128 (5 ∷ 6 ∷ [])
cut-IsRecord = record {
  header = refl;
  layout = refl;
  seq_bound = omega arith;
  type_bound = omega arith;
  size = omega arith;
}

replay_round-cut_example :
    (replay_round whole_reads (init cut_front 0 false true)).0
    ≡ answer (failed ReadError.wal_truncated)
replay_round-cut_example =
    replay_round-cut whole_reads 1 128 (5 ∷ 6 ∷ []) cut_front (6 ∷ []) (init cut_front 0 false true)
      whole_reads-IsReading (init-IsReplay cut_front) cut-IsRecord cut_whole (omega arith)
      (omega arith) refl

replay_next-answers_example : (replay_next 20 whole_reads (init cut_front 0 false true)).0 ≢ none
replay_next-answers_example =
    replay_next-answers 20 whole_reads (init cut_front 0 false true) whole_reads-IsReading
      (init-IsReplay cut_front) refl (omega arith)

scan_loop-replay_all_example :
    let r = init (flush granted one_record).1.file 0 false true in
    let (result, es) = replay_all 2 5000 whole_reads r in
    ((scan_loop 2 5000 whole_reads r 0 0).0 ≡ result)
    × ((scan_loop 2 5000 whole_reads r 0 0).1.0 ≡ last_of 0 es)
scan_loop-replay_all_example =
    scan_loop-replay_all 2 5000 whole_reads (init (flush granted one_record).1.file 0 false true) 0
      0

abbrev no_checksums : Config
no_checksums = record {
  buffer_size = 0;
  file_index = 0;
  enable_crc32 = false;
  disable_crc32 = true;
  wal_max_file_size = 0;
}

init_wal-continues_example :
    (w : Wal) × (init_wal 2 5000 whole_reads no_checksums (flush granted one_record).1.file
      ≡ some (ok w))
    × (w.sequence ≡ one_record.sequence)
    × (w.file ≡ (flush granted one_record).1.file)
    × (w.buffer ≡ [])
    × (w.last_error ≡ none)
init_wal-continues_example =
    init_wal-continues whole_reads no_checksums granted one_record (first_entry ∷ []) 5000
      whole_reads-IsReading one_record-Written one_flush one_flush_size refl

abbrev some_order : Slot
some_order = record {
  order_id = 9;
  price = 100;
  volume = 5;
  volume_remain = 5;
  org = 1;
  flags = 0;
  user_data = 1 ∷ 2 ∷ [];
  aux_data = 3 ∷ [];
}

written_layouts_example :
    (bad_layout 1 (insert_data true some_order 0 77) ≡ false)
    × ((number (take 4 (drop 40 (insert_data true some_order 0 77))) ≡ length some_order.user_data)
        × (number (take 4 (drop 44 (insert_data true some_order 0 77)))
            ≡ length some_order.aux_data)
        × (take (length some_order.user_data) (drop 56 (insert_data true some_order 0 77))
            ≡ some_order.user_data)
        × (drop (length some_order.user_data) (drop 56 (insert_data true some_order 0 77))
            ≡ some_order.aux_data))
    × (bad_layout 2 (order_data 9 77 4 0) ≡ false)
    × (bad_layout 5 (order_data 9 77 4 0) ≡ false)
    × (bad_layout 6 (order_data 9 77 4 0) ≡ false)
written_layouts_example = written_layouts true some_order 9 4 0 77 (omega arith) (omega arith)
