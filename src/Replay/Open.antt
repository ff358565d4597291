-- ===== src/Replay/Open.antt =====
-- src/om_wal.c: `wal_scan_for_last_sequence`, and `om_wal_init` with a single file.
use veloxmatch.Base.{
  ℕ, zero, suc, ◌+◌, ◌-◌, ◌*◌, ◌/◌, Bool, false, not, ◌||◌, Option, none, some, List, [], length,
  ltb, ◌==◌, if◌then◌else◌,
}
use veloxmatch.Base.Result.{Result, ok, err}
use veloxmatch.Wal.{Wal, wal_align}
use veloxmatch.Replay.{Disk, Replay, ReadError, Answer, ended, failed, got, init}
use veloxmatch.Replay.Next.{replay_next}

-- The fields of `OmWalConfig` that `om_wal_init` reads for a single file.
pub record Config : Type 0 where
  pub buffer_size : ℕ
  pub file_index : ℕ
  pub enable_crc32 : Bool
  pub disable_crc32 : Bool
  pub wal_max_file_size : ℕ

-- The loop of `wal_scan_for_last_sequence`: the last answer, the last sequence number and the index
-- of its file; `m` is the fuel of each call.
unfoldable pub scan_loop : ℕ → ℕ → Disk → Replay → ℕ → ℕ → Option Answer × (ℕ × ℕ)
scan_loop zero m d r last_seq last_file = (none, (last_seq, last_file))
scan_loop (suc n) m d r last_seq last_file =
    let r' = (replay_next m d r).1 in
    elim (replay_next m d r).0 [
      | none ↦ (none, (last_seq, last_file))
      | some ended ↦ (some ended, (last_seq, last_file))
      | some (failed e) ↦ (some (failed e), (last_seq, last_file))
      | some (got type seq payload) ↦ scan_loop n m d r' seq r'.file_index
    ]

-- `wal_scan_for_last_sequence`
abbrev pub scan_for_last_sequence : ℕ → ℕ → Disk → Config → List ℕ → Option Answer × (ℕ × ℕ)
scan_for_last_sequence n m d config file =
    scan_loop n m d (init file config.file_index false config.disable_crc32) 0 config.file_index

-- The buffer of the writer: 1 MB by default, rounded up to whole blocks.
abbrev pub rounded_size : ℕ → ℕ
rounded_size size =
    let chosen = if size == 0 then 1024 * 1024 else size in
    (chosen + (wal_align - 1)) / wal_align * wal_align

-- The writer that `om_wal_init` sets up behind the number `last_seq`.
abbrev pub opened_at : Config → List ℕ → ℕ → Wal
opened_at config file last_seq = record {
  last_error = none;
  buffer = [];
  buffer_size = rounded_size config.buffer_size;
  sequence = last_seq + 1;
  file_offset = length file;
  file_index = config.file_index;
  file = file;
  enable_crc32 = config.enable_crc32 || not config.disable_crc32;
  has_pattern = false;
  wal_max_file_size = config.wal_max_file_size;
}

-- `om_wal_init` for a single file that opens and holds `file`: the error of the scan, or the
-- writer; none if the fuel of the scan is used up. A record in a file of another index makes it open
-- that file by the pattern, which is missing here: OM_ERR_NULL_PARAM.
unfoldable pub init_wal : ℕ → ℕ → Disk → Config → List ℕ → Option (Result ReadError Wal)
init_wal n m d config file =
    let (result, (last_seq, last_file)) = scan_for_last_sequence n m d config file in
    if not (ltb 0 (length file)) then some (ok (opened_at config file 0)) else elim result [
      | none ↦ none
      | some (failed e) ↦ some (err e)
      | some _ ↦
          if last_file == config.file_index
          then some (ok (opened_at config file last_seq))
          else some (err ReadError.null_param)
    ]
