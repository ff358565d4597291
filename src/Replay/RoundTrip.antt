-- ===== src/Replay/RoundTrip.antt =====
-- src/om_wal.c: from the calls of the writer to the answers of the reader.
use veloxmatch.Base.{
  ℕ, suc, ◌+◌, ◌%◌, ◌≤◌, ◌<◌, ◌≡◌, ◌≢◌, refl, ap, sym, ◌∙◌, subst, Bool, false, not, ◌&&◌, ◌||◌,
  ◌⊎◌, inl, inr, none, some, List, [], ◌∷◌, ◌++◌, length, arith, ltb, leb, ltb→lt, ltb-false→le,
  replicate, if◌then◌else◌, ℕ-cases, Bool-cases, Option-cases,
}
use veloxmatch.Wal.{Wal, Grants, flush, append, put_record, total_size, max_sequence}
use veloxmatch.Replay.{Disk, ended, init}
use veloxmatch.Replay.Next.{bad_header, bad_layout}
use veloxmatch.Replay.Fill.{IsReading}
use veloxmatch.Replay.Turn.{IsRecord}
use veloxmatch.Replay.Stream.{Entry, nothing, zeros_from, last_of, replay_all}
use veloxmatch.Replay.Reading.{Stands, replay_all_lem}
use veloxmatch.Replay.Writing.{
  FlushedTo, flush-FlushedTo, Spaced, Stored, pad_size, flushed_bytes, flushed-Stored, put-Stored,
  zeros_is,
}

-- A type that the log knows, or one for users, data of its layout, and a handler that takes it.
pub record IsData (d : Disk) (type : ℕ) (payload : List ℕ) : Type 0 where
  pub known : bad_header 0 type 1 ≡ false
  pub layout : bad_layout type payload ≡ false
  pub byte : type < 256
  pub accepted : (leb 128 type && d.handler type payload) ≡ false

-- What a writer may have done, and the records that it was given numbers for: it begins with an
-- empty file, appends records and flushes. A block that is filled up in between has no zeros at
-- its end, or eight at least.
pub data Written (d : Disk) (crc : Bool) : Wal → List Entry → Type 0 where
  started :
      (w : Wal)
      → w.file ≡ []
      → w.buffer ≡ []
      → w.sequence ≡ 1
      → w.enable_crc32 ≡ crc
      → w.has_pattern ≡ false
      → w.buffer_size % 4096 ≡ 0
      → Written d crc w []
  appended :
      (g : Grants) (w : Wal) (es : List Entry) (type : ℕ) (payload : List ℕ)
      → Written d crc w es
      → (append g w type payload).0 ≢ 0
      → IsData d type payload
      → Spaced w ⊎ (length w.buffer + total_size w payload ≤ w.buffer_size)
      → Written d crc
          (append g w type payload).1
          (es ++ (record { seq = w.sequence; type = type; payload = payload } ∷ []))
  flushed :
      (g : Grants) (w : Wal) (es : List Entry)
      → Written d crc w es
      → (flush g w).0 ≡ none
      → Spaced w
      → Written d crc (flush g w).1 es

-- The guards of `wal_append` that a number implies, and where the record then is put.
append_cases :
    (g : Grants) (w : Wal) (type : ℕ) (payload : List ℕ)
    → (append g w type payload).0 ≢ 0
    → (length payload < 65536)
      × (w.sequence < max_sequence)
      × (total_size w payload ≤ w.buffer_size)
      × (((length w.buffer + total_size w payload ≤ w.buffer_size)
            × (append g w type payload ≡ put_record w type payload))
          ⊎ (((flush g w).0 ≡ none)
              × (w.buffer_size < length w.buffer + total_size w payload)
              × (append g w type payload ≡ put_record (flush g w).1 type payload)))
unfolding append
append_cases g w type payload taken = elim (Option-cases w.last_error) [
  | inr (e, broken) ↦ absurd (taken (ground (arith, broken)))
  | inl sound ↦
      let total = total_size w payload in
      elim (Bool-cases
        (ltb 65535 (length payload) || ltb w.buffer_size total || leb max_sequence w.sequence)) [
          | inl bad ↦ absurd (taken (ground (arith, sound, bad)))
          | inr good ↦
              let small : length payload < 65536 = ground (arith, good) in
              let below : w.sequence < max_sequence = ground (arith, good) in
              let fits : total ≤ w.buffer_size = ground (arith, good) in
              (
                small,
                below,
                fits,
                elim (Bool-cases (ltb w.buffer_size (length w.buffer + total))) [
                  | inr room ↦
                      let is : append g w type payload ≡ put_record w type payload =
                        ground (arith, sound, good, room) in
                      inl (ltb-false→le w.buffer_size (length w.buffer + total) room, is)
                  | inl over ↦ elim (Option-cases (flush g w).0) [
                    | inr (e, lost) ↦ absurd (taken (ground (arith, sound, good, over, lost)))
                    | inl written ↦
                        let is : append g w type payload ≡ put_record (flush g w).1 type payload =
                          ground (arith, sound, good, over, written) in
                        inr (written, ltb→lt w.buffer_size (length w.buffer + total) over, is)
                  ]
                ],
              )
        ]
]

module _ (d : Disk) (crc : Bool) where
  started-Stored :
      (w : Wal)
      → w.file ≡ []
      → w.buffer ≡ []
      → w.sequence ≡ 1
      → w.enable_crc32 ≡ crc
      → w.has_pattern ≡ false
      → w.buffer_size % 4096 ≡ 0
      → Stored d crc w []
  started-Stored w file buffer seq crc_is single blocks = record {
    log = nothing 0 0 (w.file ++ w.buffer) [] (rw (file, buffer) refl) refl;
    blocks = omega (arith, ap length file);
    next_is = seq;
    is = record {
      blocks = blocks;
      fits = omega (arith, ap length buffer);
      starts = omega (arith, seq);
    };
    crc_is = crc_is;
    single = single;
  }

  data-IsRecord :
      (last seq type : ℕ) (payload : List ℕ)
      → IsData d type payload
      → seq ≡ last + 1
      → seq < max_sequence
      → length payload < 65536
      → IsRecord last seq type payload
  data-IsRecord last seq type payload v is below small = record {
    header = rw is (ground (arith, v.known));
    layout = v.layout;
    seq_bound = below;
    type_bound = v.byte;
    size = small;
  }

  appended-Stored :
      (g : Grants) (w : Wal) (es : List Entry) (type : ℕ) (payload : List ℕ)
      → Stored d crc w es
      → (append g w type payload).0 ≢ 0
      → IsData d type payload
      → Spaced w ⊎ (length w.buffer + total_size w payload ≤ w.buffer_size)
      → Stored d crc
          (append g w type payload).1
          (es ++ (record { seq = w.sequence; type = type; payload = payload } ∷ []))
  appended-Stored g w es type payload s taken v spaced =
      let (small, below, fits, cases) = append_cases g w type payload taken in
      elim cases [
        | inl (room, is) ↦
            let good =
              data-IsRecord (last_of 0 es) w.sequence type payload v s.next_is below small in
            rw is (put-Stored d crc w es type payload s room good v.accepted)
        | inr (written, over, is) ↦
            let w' = (flush g w).1 in
            let f = flush-FlushedTo g w s.single written in
            let wide : Spaced w = elim spaced [
              | inl h ↦ h
              | inr room ↦ absurd (omega (arith, room, over))
            ] in
            let s' = flushed-Stored d crc w w' es s f wide in
            let total_is : total_size w' payload ≡ total_size w payload =
              ap (λ c. 8 + length payload + (if c then 4 else 0)) f.same_crc in
            let room : length w'.buffer + total_size w' payload ≤ w'.buffer_size =
              omega (arith, ap length f.buffer_is, total_is, f.same_size, fits) in
            let good =
              data-IsRecord (last_of 0 es) w'.sequence type payload v s'.next_is
                (rw f.same_sequence below) small in
            rw is (
              subst
                (λ n.
                  Stored d crc (put_record w' type payload).1
                    (es ++ (record { seq = n; type = type; payload = payload } ∷ [])))
                f.same_sequence (put-Stored d crc w' es type payload s' room good v.accepted))
      ]

  pub Written-Stored : (w : Wal) (es : List Entry) → Written d crc w es → Stored d crc w es
  Written-Stored w es (started _ file buffer seq crc_is single blocks) =
      started-Stored w file buffer seq crc_is single blocks
  Written-Stored w' es' (appended g w es type payload before taken v spaced) =
      appended-Stored g w es type payload (Written-Stored w es before) taken v spaced
  Written-Stored w' es (flushed g w _ before fine spaced) =
      let s = Written-Stored w es before in
      flushed-Stored d crc w (flush g w).1 es s (flush-FlushedTo g w s.single fine) spaced

  pub ready :
      (w w' : Wal) (es : List Entry) (disable : Bool)
      → Stored d crc w es
      → FlushedTo w w'
      → crc ≡ not disable
      → Stands crc
          (replicate (pad_size w) 0)
          (init w'.file 0 false disable)
          0
          0
          (w.file ++ w.buffer)
  ready w w' es disable s f crc_is = record {
    is = record {
      inside = omega arith;
      behind = omega arith;
      offset = omega arith;
      fits = omega arith;
      block = omega arith;
    };
    unread_is = flushed_bytes d crc w w' f;
    at = omega arith;
    last_is = refl;
    single = refl;
    index_is = refl;
    crc_is = sym crc_is;
    tail_is = elim (ℕ-cases (pad_size w) 0) [
      | inl full ↦ inl (ap (λ n. replicate n 0) full)
      | inr some_zeros ↦
          let here : length (w.file ++ w.buffer) ≡ 0 + length (w.file ++ w.buffer) = omega arith in
          inr (sym (zeros_is d crc w es s some_zeros) ∙ ap zeros_from here)
    ];
  }

-- What the writer of a single file has given numbers for is what the reader delivers, in order and
-- with the same numbers, types and data, and then the end of the file without an error: after a
-- last flush that succeeds, for any way in which `read` cuts the file into pieces. No block that
-- was filled up before the last flush had one to seven bytes left; each record has a type that the
-- reader knows, below 256, data of that type's layout, and for a user type a handler that accepts
-- it; and writer and reader have the same checksum setting. The writer started with number 1 on an
-- empty file, without a file pattern. One call more than there are records is enough,
-- each with one round more than the file has bytes.
pub replay_all-Written :
    (d : Disk) (disable : Bool) (g : Grants) (w : Wal) (es : List Entry) (m : ℕ)
    → IsReading d
    → Written d (not disable) w es
    → (flush g w).0 ≡ none
    → length (flush g w).1.file < m
    → replay_all (suc (length es)) m d (init (flush g w).1.file 0 false disable) ≡ (some ended, es)
replay_all-Written d disable g w es m reading written fine fuel =
    let s = Written-Stored d (not disable) w es written in
    let f = flush-FlushedTo g w s.single fine in
    replay_all_lem d (not disable) (suc (length es)) m (replicate (pad_size w) 0)
      (init (flush g w).1.file 0 false disable) 0 0 (w.file ++ w.buffer) es reading s.log
      (ready d (not disable) w (flush g w).1 es disable s f refl) fuel (omega arith)
