-- ===== src/Wal/Writer.antt =====
-- src/om_wal.c: what the writer of the log promises.
use veloxmatch.Base.{
  ℕ, zero, suc, ◌+◌, ◌/◌, ◌%◌, ◌≤◌, ◌<◌, ◌≡◌, ◌≢◌, refl, ap, ◌∙◌, Bool, true, false, ◌||◌, Option,
  none, some, List, [], ◌++◌, length, length-append, arith, subst, ◌⊎◌, ltb, leb, ◌==◌, Bool-cases,
  Option-cases, List-cases, inl, inr,
}
use veloxmatch.Wal.{
  Wal, Grants, Error, bytes, flush, append, put_record, record_bytes, total_size, write_size,
  write_out, full_file, max_sequence, pack_header, crc32_compute,
}

-- The buffer holds whole blocks, and what is in it fits.
pub record IsWal (w : Wal) : Type 0 where
  pub blocks : w.buffer_size % 4096 ≡ 0
  pub fits : length w.buffer ≤ w.buffer_size
  pub starts : 0 < w.sequence

pub length-bytes : (n k : ℕ) → length (bytes n k) ≡ n
unfolding bytes
length-bytes zero k = refl
length-bytes (suc n) k = ap suc (length-bytes n (k / 256))

-- `om_wal_flush` writes whole blocks of the buffer only, so it reads nothing behind its end.
pub write_size-fits : (w : Wal) → IsWal w → write_size (length w.buffer) ≤ w.buffer_size
write_size-fits w v = omega (arith, v.blocks, v.fits)

pub length-record_bytes :
    (w : Wal) (seq type : ℕ) (payload : List ℕ)
    → length (record_bytes w.enable_crc32 seq type payload) ≡ total_size w payload
unfolding record_bytes
length-record_bytes w seq type payload =
    let packed = pack_header seq type (length payload) in
    let body = bytes 8 packed ++ payload in
    let body_length : length body ≡ 8 + length payload =
      length-append (bytes 8 packed) payload
      ∙ ap (λ n. n + length payload) (length-bytes 8 packed) in
    let sum = length-append body (bytes 4 (crc32_compute body)) in
    let check = length-bytes 4 (crc32_compute body) in
    elim (Bool-cases w.enable_crc32) [
      | inl on ↦ rw on (omega (arith, body_length, sum, check))
      | inr off ↦ rw off (omega (arith, body_length))
    ]

-- What `om_wal_flush` leaves as it was, and that it empties the buffer if it succeeds.
abbrev Flushed : Wal → Option Error × Wal → Type 0
Flushed w (none, w') =
    (w'.buffer ≡ [])
    × (w'.buffer_size ≡ w.buffer_size)
    × (w'.sequence ≡ w.sequence)
    × (w'.enable_crc32 ≡ w.enable_crc32)
    × (w'.last_error ≡ none)
Flushed w (some e, w') =
    (w'.buffer ≡ w.buffer)
    × (w'.buffer_size ≡ w.buffer_size)
    × (w'.sequence ≡ w.sequence)
    × (w'.enable_crc32 ≡ w.enable_crc32)
    × (w'.last_error ≡ some e)

write_out-Flushed :
    (accepted : Bool) (w : Wal) → w.last_error ≡ none → Flushed w (write_out accepted w)
write_out-Flushed true w e = (refl, refl, refl, refl, e)
write_out-Flushed false w e = (refl, refl, refl, refl, refl)

flush-Flushed : (g : Grants) (w : Wal) → Flushed w (flush g w)
unfolding flush
flush-Flushed g w = elim (Option-cases w.last_error) [
  | inr (e, failed) ↦
      let is : flush g w ≡ (some e, w) = ground (arith, failed) in
      rw is (refl, refl, refl, refl, failed)
  | inl fine ↦ elim (List-cases w.buffer) [
    | inl empty ↦
        let is : flush g w ≡ (none, w) = ground (arith, fine, empty) in
        rw is (empty, refl, refl, refl, fine)
    | inr (b, rest, some_bytes) ↦
        let used : (length w.buffer == 0) ≡ false = rw some_bytes (ground arith) in
        elim (Bool-cases (full_file w)) [
          | inr room ↦
              let is : flush g w ≡ write_out g.write w = ground (arith, fine, used, room) in
              rw is (write_out-Flushed g.write w fine)
          | inl full ↦ elim (Bool-cases g.fsync) [
            | inr lost ↦
                let is : flush g w
                    ≡ (some Error.wal_fsync, record w { last_error = some Error.wal_fsync }) =
                  ground (arith, fine, used, full, lost) in
                rw is (refl, refl, refl, refl, refl)
            | inl kept ↦ elim (Bool-cases g.reopen) [
              | inr shut ↦
                  let next = record w {
                    file_index = w.file_index + 1;
                    last_error = some Error.wal_open;
                  } in
                  let is : flush g w ≡ (some Error.wal_open, next) =
                    ground (arith, fine, used, full, kept, shut) in
                  rw is (refl, refl, refl, refl, refl)
              | inl opened ↦
                  let next = record w {
                    file_index = w.file_index + 1;
                    file_offset = 0;
                    file = [];
                  } in
                  let is : flush g w ≡ write_out g.write next =
                    ground (arith, fine, used, full, kept, opened) in
                  rw is (let v = write_out-Flushed g.write next fine in v)
            ]
          ]
        ]
  ]
]

-- What `wal_append` may leave: it has returned 0 and the log has failed, or it has returned the
-- next number, and the record stands behind what was in the buffer, or alone after that was written.
abbrev pub AfterAppend : Wal → ℕ → List ℕ → ℕ × Wal → Type 0
AfterAppend w type payload (seq, w') =
    let added = record_bytes w.enable_crc32 w.sequence type payload in
    ((seq ≡ 0) × (w'.sequence ≡ w.sequence) × (w'.last_error ≢ none))
    ⊎ ((seq ≡ w.sequence)
        × (w'.sequence ≡ w.sequence + 1)
        × (w'.last_error ≡ none)
        × ((w'.buffer ≡ w.buffer ++ added) ⊎ (w'.buffer ≡ added)))

some-ne-none : {o : Option Error} {e : Error} → o ≡ some e → o ≢ none
some-ne-none is e = ground (arith, is, e)

pub put_record-IsWal :
    (w : Wal) (type : ℕ) (payload : List ℕ)
    → IsWal w
    → length w.buffer + total_size w payload ≤ w.buffer_size
    → IsWal (put_record w type payload).1
put_record-IsWal w type payload v room =
    let added = record_bytes w.enable_crc32 w.sequence type payload in
    let size = length-record_bytes w w.sequence type payload in
    record {
      blocks = v.blocks;
      fits = omega (arith, length-append w.buffer added, size, room);
      starts = omega (arith, v.starts);
    }

append-Flushed :
    (g : Grants) (w : Wal) (type : ℕ) (payload : List ℕ)
    → IsWal w
    → w.last_error ≡ none
    → (ltb 65535 (length payload)
        || ltb w.buffer_size (total_size w payload)
        || leb max_sequence w.sequence)
      ≡ false
    → ltb w.buffer_size (length w.buffer + total_size w payload) ≡ true
    → Flushed w (flush g w)
    → AfterAppend w type payload (append g w type payload) × IsWal (append g w type payload).1
unfolding append
append-Flushed g w type payload v fine good over f = elim (Option-cases (flush g w).0) [
  | inr (e, lost) ↦
      let w' = (flush g w).1 in
      let whole : flush g w ≡ (some e, w') = ground (arith, lost) in
      let (buffer, size, seq, crc, failed) = subst (λ r. Flushed w r) whole f in
      let is : append g w type payload ≡ (0, w') = ground (arith, fine, good, over, lost) in
      rw is (
        inl (refl, seq, some-ne-none failed),
        record {
          blocks = rw size v.blocks;
          fits = rw (buffer, size) v.fits;
          starts = rw seq v.starts;
        },
      )
  | inl written ↦
      let w' = (flush g w).1 in
      let whole : flush g w ≡ (none, w') = ground (arith, written) in
      let (buffer, size, seq, crc, ok) = subst (λ r. Flushed w r) whole f in
      let is : append g w type payload ≡ put_record w' type payload =
        ground (arith, fine, good, over, written) in
      let added = record_bytes w.enable_crc32 w.sequence type payload in
      let alone : w'.buffer ++ record_bytes w'.enable_crc32 w'.sequence type payload ≡ added =
        rw (buffer, seq, crc) refl in
      let fits : length w'.buffer + total_size w' payload ≤ w'.buffer_size =
        rw (buffer, crc, size) (ground (arith, good)) in
      let v' : IsWal w' = record {
        blocks = rw size v.blocks;
        fits = rw buffer (omega arith);
        starts = rw seq v.starts;
      } in
      rw is
        (inr (seq, ap (λ n. n + 1) seq, ok, inr alone), put_record-IsWal w' type payload v' fits)
]

-- `wal_append` returns the next sequence number exactly if the log has not failed, and then the
-- record is in the buffer; whatever is written, the buffer never holds more than its size, which
-- stays a multiple of the block size.
pub append_lem :
    (g : Grants) (w : Wal) (type : ℕ) (payload : List ℕ)
    → IsWal w
    → AfterAppend w type payload (append g w type payload) × IsWal (append g w type payload).1
unfolding append
append_lem g w type payload v = elim (Option-cases w.last_error) [
  | inr (e, failed) ↦
      let is : append g w type payload ≡ (0, w) = ground (arith, failed) in
      rw is (inl (refl, refl, some-ne-none failed), v)
  | inl fine ↦
      let total = total_size w payload in
      elim (Bool-cases
        (ltb 65535 (length payload) || ltb w.buffer_size total || leb max_sequence w.sequence)) [
          | inl bad ↦
              let failed = record w { last_error = some Error.wal_write } in
              let is : append g w type payload ≡ (0, failed) = ground (arith, fine, bad) in
              rw is (
                inl (refl, refl, some-ne-none refl),
                record { blocks = v.blocks; fits = v.fits; starts = v.starts },
              )
          | inr good ↦ elim (Bool-cases (ltb w.buffer_size (length w.buffer + total))) [
            | inr room ↦
                let is : append g w type payload ≡ put_record w type payload =
                  ground (arith, fine, good, room) in
                let fits : length w.buffer + total ≤ w.buffer_size = ground (arith, room) in
                rw is (inr (refl, refl, fine, inl refl), put_record-IsWal w type payload v fits)
            | inl over ↦ append-Flushed g w type payload v fine good over (flush-Flushed g w)
          ]
        ]
]
