-- ===== src/Replay/Continue.antt =====
-- src/om_wal.c: a log that is opened again.
use veloxmatch.Base.{
  ℕ, zero, suc, ◌+◌, ◌<◌, ◌≡◌, refl, ap, sym, ◌∙◌, Bool, true, false, not, Option, none, some, ◌⊎◌,
  inl, inr, List, [], ◌∷◌, ◌++◌, replicate, length, arith, ltb, ltb-false→le, ==_refl,
  length-append, ◌==◌, Bool-cases,
}
use veloxmatch.Base.Result.{ok}
use veloxmatch.Wal.{Wal, Grants, flush, record_bytes}
use veloxmatch.Replay.{Disk, Replay, ReadError, Answer, ended, failed, got, init}
use veloxmatch.Replay.Next.{replay_next}
use veloxmatch.Replay.Fill.{IsReading, unread}
use veloxmatch.Replay.Stream.{Entry, Log, nothing, entry, padding, zeros_from, last_of, replay_all}
use veloxmatch.Replay.Reading.{Stands, next_lem}
use veloxmatch.Replay.Writing.{flush-FlushedTo, pad_size, flushed_bytes}
use veloxmatch.Replay.Codec.{length-record}
use veloxmatch.Replay.RoundTrip.{Written, Written-Stored, ready, replay_all-Written}
use veloxmatch.Replay.Open.{Config, scan_loop, scan_for_last_sequence, init_wal, opened_at}

next_cases :
    (o : Option Answer)
    → ((o ≡ none) ⊎ (o ≡ some ended))
      ⊎ (((e : ReadError) × (o ≡ some (failed e)))
          ⊎ ((type : ℕ) × (seq : ℕ) × (payload : List ℕ) × (o ≡ some (got type seq payload))))
next_cases none = inl (inl refl)
next_cases (some ended) = inl (inr refl)
next_cases (some (failed e)) = inr (inl (e, refl))
next_cases (some (got type seq payload)) = inr (inr (type, seq, payload, refl))

-- The scan for the last sequence number goes over the records that the reader delivers, and ends
-- with the number of the last of them and the answer behind it.
pub scan_loop-replay_all :
    (n m : ℕ) (d : Disk) (r : Replay) (last_seq last_file : ℕ)
    → let (result, es) = replay_all n m d r in
      ((scan_loop n m d r last_seq last_file).0 ≡ result)
      × ((scan_loop n m d r last_seq last_file).1.0 ≡ last_of last_seq es)
unfolding scan_loop replay_all
scan_loop-replay_all zero m d r last_seq last_file = (refl, refl)
scan_loop-replay_all (suc n) m d r last_seq last_file =
    let out = scan_loop (suc n) m d r last_seq last_file in
    let r' = (replay_next m d r).1 in
    elim (next_cases (replay_next m d r).0) [
      | inl (inl spent) ↦
          let scan_is : out ≡ (none, (last_seq, last_file)) = ground (arith, spent) in
          let all_is : replay_all (suc n) m d r ≡ (none, []) = ground (arith, spent) in
          rw (scan_is, all_is) (refl, refl)
      | inl (inr stop) ↦
          let scan_is : out ≡ (some ended, (last_seq, last_file)) = ground (arith, stop) in
          let all_is : replay_all (suc n) m d r ≡ (some ended, []) = ground (arith, stop) in
          rw (scan_is, all_is) (refl, refl)
      | inr (inl (e, bad)) ↦
          let scan_is : out ≡ (some (failed e), (last_seq, last_file)) = ground (arith, bad) in
          let all_is : replay_all (suc n) m d r ≡ (some (failed e), []) = ground (arith, bad) in
          rw (scan_is, all_is) (refl, refl)
      | inr (inr (type, seq, payload, more)) ↦
          let first : Entry = record { seq = seq; type = type; payload = payload } in
          let scan_is : out ≡ scan_loop n m d r' seq r'.file_index = ground (arith, more) in
          let rest = replay_all n m d r' in
          let all_is : replay_all (suc n) m d r ≡ (rest.0, first ∷ rest.1) = ground (arith, more) in
          rw (scan_is, all_is) (scan_loop-replay_all n m d r' seq r'.file_index)
    ]

Log-empty :
    (d : Disk) (crc : Bool) (p last : ℕ) (bs : List ℕ) (es : List Entry)
    → Log d crc p last bs es
    → length bs ≡ 0
    → es ≡ []
Log-empty d crc p last bs es (nothing _ _ _ _ no_bytes no_entries) h = no_entries
Log-empty d crc p last bs es (entry _ _ _ _ e cs fs is es_is good accepted log) h =
    let size = length-record crc e.seq e.type e.payload in
    let front = record_bytes crc e.seq e.type e.payload in
    absurd (omega (arith, h, ap length is, length-append front cs, size))
Log-empty d crc p last bs es (padding _ _ _ _ cs is wide log) h =
    absurd (omega (arith, h, ap length is, length-append (zeros_from p) cs, wide))

-- In a single file the scan stays at index 0.
scan_loop-index :
    (d : Disk) (crc : Bool) (n m : ℕ) (tail : List ℕ) (r : Replay) (p last : ℕ) (bs : List ℕ)
    (es : List Entry) (last_seq : ℕ)
    → IsReading d
    → Log d crc p last bs es
    → Stands crc tail r p last bs
    → length (unread r) < m
    → (scan_loop n m d r last_seq 0).1.1 ≡ 0
unfolding scan_loop
scan_loop-index d crc zero m tail r p last bs es last_seq reading log s fuel = refl
scan_loop-index d crc (suc n) m tail r p last bs [] last_seq reading log s fuel =
    let stop : (replay_next m d r).0 ≡ some ended =
      next_lem d crc m m tail r p last bs [] reading log s fuel (omega arith) in
    ground (arith, stop)
scan_loop-index d crc (suc n) m tail r p last bs (e ∷ es) last_seq reading log s fuel =
    let (first, q, cs, log', s', fuel') =
      next_lem d crc m m tail r p last bs (e ∷ es) reading log s fuel (omega arith) in
    let r' = (replay_next m d r).1 in
    let is : scan_loop (suc n) m d r last_seq 0 ≡ scan_loop n m d r' e.seq r'.file_index =
      ground (arith, first) in
    rw (is, s'.index_is)
      (scan_loop-index d crc n m tail r' q e.seq cs es e.seq reading log' s' fuel')

-- Opening a file that a writer has flushed continues its numbers: the new writer has the file as it
-- is, an empty buffer, and the number that the old writer would have given next. The writer started
-- with number 1 on an empty file, without a file pattern; no block that it filled up before the
-- last flush had one to seven bytes left; each of its records has a type that the reader knows,
-- below 256, data of that type's layout, and for a user type a handler that accepts it; the last
-- flush succeeded; and the new writer is opened with the same checksum setting and file index 0,
-- and with as much fuel as the file has bytes and records, for any way in which `read` cuts it.
pub init_wal-continues :
    (d : Disk) (config : Config) (g : Grants) (w : Wal) (es : List Entry) (m : ℕ)
    → IsReading d
    → Written d (not config.disable_crc32) w es
    → (flush g w).0 ≡ none
    → length (flush g w).1.file < m
    → config.file_index ≡ 0
    → (w' : Wal) × (init_wal (suc (length es)) m d config (flush g w).1.file ≡ some (ok w'))
      × (w'.sequence ≡ w.sequence)
      × (w'.file ≡ (flush g w).1.file)
      × (w'.buffer ≡ [])
      × (w'.last_error ≡ none)
unfolding init_wal
init_wal-continues d config g w es m reading written fine fuel index =
    let file = (flush g w).1.file in
    let off = config.disable_crc32 in
    let r = init file 0 false off in
    let s = Written-Stored d (not off) w es written in
    let f = flush-FlushedTo g w s.single fine in
    let tail : List ℕ = replicate (pad_size w) 0 in
    let stands = ready d (not off) w (flush g w).1 es off s f refl in
    let all = replay_all-Written d off g w es m reading written fine fuel in
    let n = suc (length es) in
    let (result, last) = scan_loop-replay_all n m d r 0 0 in
    let result_is : (scan_loop n m d r 0 0).0 ≡ some ended = result ∙ ap (λ x. x.0) all in
    let last_is : (scan_loop n m d r 0 0).1.0 ≡ last_of 0 es = last ∙ ap (λ x. last_of 0 x.1) all in
    let index_is : (scan_loop n m d r 0 0).1.1 ≡ 0 =
      scan_loop-index d (not off) n m tail r 0 0 (w.file ++ w.buffer) es 0 reading s.log stands
        fuel in
    elim (Bool-cases (ltb 0 (length file))) [
      | inr empty ↦
          let no_bytes : length (w.file ++ w.buffer) ≡ 0 = omega (
            arith,
            ltb-false→le 0 (length file) empty,
            ap length (flushed_bytes d (not off) w (flush g w).1 f),
            length-append (w.file ++ w.buffer) tail,
          ) in
          let no_entries : es ≡ [] =
            Log-empty d (not off) 0 0 (w.file ++ w.buffer) es s.log no_bytes in
          let first : 1 ≡ w.sequence = sym (s.next_is ∙ ap (λ l. last_of 0 l + 1) no_entries) in
          (opened_at config file 0, rw empty refl, first, refl, refl, refl)
      | inl some_bytes ↦
          let w' = opened_at config file (last_of 0 es) in
          let same : scan_for_last_sequence n m d config file ≡ scan_loop n m d r 0 0 =
            ap (λ k. scan_loop n m d r 0 k) index in
          let answered : (scan_for_last_sequence n m d config file).0 ≡ some ended =
            ap (λ x. x.0) same ∙ result_is in
          let number_is : (scan_for_last_sequence n m d config file).1.0 ≡ last_of 0 es =
            ap (λ x. x.1.0) same ∙ last_is in
          let stays : ((scan_for_last_sequence n m d config file).1.1 == config.file_index) ≡ true =
            rw (ap (λ x. x.1.1) same ∙ index_is, index) (==_refl 0) in
          (w', rw (some_bytes, answered, number_is, stays) refl, sym s.next_is, refl, refl, refl)
    ]
