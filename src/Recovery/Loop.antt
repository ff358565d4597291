-- ===== src/Recovery/Loop.antt =====
-- src/orderbook.c: the loop of `om_orderbook_recover_from_wal`, its statistics and its results.
use veloxmatch.Base.{ℕ, zero, suc, ◌+◌, Bool, false, Option, none, some, List, length, add64}
use veloxmatch.Book.{Book, Deps}
use veloxmatch.Replay.{Disk, Replay, init, ended, failed, got}
use veloxmatch.Replay.Next.{replay_next}
use veloxmatch.Recovery.{
  Effect, passed_over, counts_insert, counts_cancel, counts_match, counts_other, stops,
  RecoverError, replay_failed, silent, apply_record,
}

-- `OmWalReplayStats`
pub record Stats : Type 0 where
  pub records_insert : ℕ
  pub records_cancel : ℕ
  pub records_match : ℕ
  pub records_other : ℕ
  pub bytes_processed : ℕ
  pub last_sequence : ℕ

-- The stats after a record that was counted.
abbrev pub count_bytes : Stats → ℕ → List ℕ → Stats
count_bytes s seq payload = record s {
  bytes_processed = add64 s.bytes_processed (8 + length payload);
  last_sequence = seq;
}

abbrev pub count : Effect → Stats → ℕ → List ℕ → Stats
count passed_over s seq payload = s
count (stops e) s seq payload = s
count counts_insert s seq payload =
    count_bytes (record s { records_insert = add64 s.records_insert 1 }) seq payload
count counts_cancel s seq payload =
    count_bytes (record s { records_cancel = add64 s.records_cancel 1 }) seq payload
count counts_match s seq payload =
    count_bytes (record s { records_match = add64 s.records_match 1 }) seq payload
count counts_other s seq payload =
    count_bytes (record s { records_other = add64 s.records_other 1 }) seq payload

-- The error of an effect, if it has one
abbrev pub stopped : Effect → Option RecoverError
stopped (stops e) = some e
stopped passed_over = none
stopped counts_insert = none
stopped counts_cancel = none
stopped counts_match = none
stopped counts_other = none

-- What the recovery returns: 0 or an error.
pub data Recovery : Type 0 where
  recovered : Recovery
  fails : (error : RecoverError) → Recovery

-- The loop of `om_orderbook_recover_from_wal`, none if the fuel is used up: `n` for the records, `m`
-- for each call of the reader
unfoldable pub recover_loop :
    {M L : Type 0}
    → ℕ
    → ℕ
    → Deps M L
    → Disk
    → Replay
    → Book M L
    → Stats
    → Option Recovery × Book M L × Stats
recover_loop zero m d disk r b s = (none, b, s)
recover_loop (suc n) m d disk r b s =
    let r' = (replay_next m disk r).1 in
    elim (replay_next m disk r).0 [
      | none ↦ (none, b, s)
      | some ended ↦ (some recovered, b, s)
      | some (failed e) ↦ (some (fails (replay_failed e)), b, s)
      | some (got type seq payload) ↦
          let (effect, b') = apply_record d b type payload in
          elim (stopped effect) [
            | some e ↦ (some (fails e), b', s)
            | none ↦ recover_loop n m d disk r' b' (count effect s seq payload)
          ]
    ]

abbrev no_stats : Stats
no_stats = record {
  records_insert = 0;
  records_cancel = 0;
  records_match = 0;
  records_other = 0;
  bytes_processed = 0;
  last_sequence = 0;
}

-- `om_orderbook_recover_from_wal` with a file that opens
unfoldable pub recover_from_wal :
    {M L : Type 0}
    → ℕ
    → ℕ
    → Deps M L
    → Disk
    → List ℕ
    → Bool
    → Book M L
    → Option Recovery × Book M L × Stats
recover_from_wal n m d disk file disable_crc32 b =
    recover_loop n m (silent d) disk (init file 0 false disable_crc32) b no_stats
