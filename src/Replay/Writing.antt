-- ===== src/Replay/Writing.antt =====
-- src/om_wal.c: the file that the writer leaves, as a log for the reader; a single file.
use veloxmatch.Base.{
  ℕ, ◌+◌, ◌-◌, ◌%◌, ◌≤◌, ◌≡◌, ◌≢◌, refl, ap, sym, ◌∙◌, subst, Bool, false, ◌&&◌, ◌⊎◌, inl, inr,
  none, some, List, [], ◌∷◌, ◌++◌, length, arith, leb, ◌==◌, replicate, length-replicate,
  length-append, append_assoc, append-nil, ℕ-cases, Bool-cases, Option-cases, List-cases,
}
use veloxmatch.Wal.{
  Wal, Grants, flush, put_record, record_bytes, total_size, write_size, write_out, wal_align,
}
use veloxmatch.Wal.Writer.{IsWal, put_record-IsWal}
use veloxmatch.Replay.{Disk}
use veloxmatch.Replay.Turn.{IsRecord}
use veloxmatch.Replay.Stream.{Entry, Log, nothing, entry, padding, zeros_from, last_of, Log-append}

-- The zeros that a write adds.
abbrev pub pad_size : Wal → ℕ
pad_size w = write_size (length w.buffer) - length w.buffer

-- What a flush of a single file leaves if it succeeds.
pub record FlushedTo (w w' : Wal) : Type 0 where
  pub file_is : w'.file ≡ w.file ++ (w.buffer ++ replicate (pad_size w) 0)
  pub buffer_is : w'.buffer ≡ []
  pub same_sequence : w'.sequence ≡ w.sequence
  pub same_size : w'.buffer_size ≡ w.buffer_size
  pub same_crc : w'.enable_crc32 ≡ w.enable_crc32
  pub same_pattern : w'.has_pattern ≡ w.has_pattern

pub flush-FlushedTo :
    (g : Grants) (w : Wal)
    → w.has_pattern ≡ false
    → (flush g w).0 ≡ none
    → FlushedTo w (flush g w).1
unfolding flush
flush-FlushedTo g w single fine = elim (Option-cases w.last_error) [
  | inr (e, broken) ↦
      let is : flush g w ≡ (some e, w) = ground (arith, broken) in absurd (ground (arith, is, fine))
  | inl sound ↦ elim (List-cases w.buffer) [
    | inl empty ↦
        let is : flush g w ≡ (none, w) = ground (arith, sound, empty) in
        rw is (record {
          file_is = rw empty (sym (append-nil w.file));
          buffer_is = empty;
          same_sequence = refl;
          same_size = refl;
          same_crc = refl;
          same_pattern = refl;
        })
    | inr (b, rest, some_bytes) ↦
        let used : (length w.buffer == 0) ≡ false = rw some_bytes (ground arith) in
        let is : flush g w ≡ write_out g.write w = ground (arith, sound, used, single) in
        elim (Bool-cases g.write) [
          | inl written ↦
              rw (is, written)
                (record {
                  file_is = refl;
                  buffer_is = refl;
                  same_sequence = refl;
                  same_size = refl;
                  same_crc = refl;
                  same_pattern = refl;
                })
          | inr lost ↦ absurd (ground (arith, is, lost, fine))
        ]
  ]
]

-- The number of zeros that the reader can tell from a record: none, or a header's worth.
abbrev pub Spaced : Wal → Type 0
Spaced w = (pad_size w ≡ 0) ⊎ (8 ≤ pad_size w)

-- The file and the buffer of a single file's writer hold a log of `es`.
pub record Stored (d : Disk) (crc : Bool) (w : Wal) (es : List Entry) : Type 0 where
  pub log : Log d crc 0 0 (w.file ++ w.buffer) es
  pub blocks : length w.file % 4096 ≡ 0
  pub next_is : w.sequence ≡ last_of 0 es + 1
  pub is : IsWal w
  pub crc_is : w.enable_crc32 ≡ crc
  pub single : w.has_pattern ≡ false

last_of_append : (last : ℕ) (es : List Entry) (e : Entry) → last_of last (es ++ (e ∷ [])) ≡ e.seq
last_of_append last [] e = refl
last_of_append last (f ∷ es) e = last_of_append f.seq es e

module _ (d : Disk) (crc : Bool) where
  pub zeros_is :
      (w : Wal) (es : List Entry)
      → Stored d crc w es
      → pad_size w ≢ 0
      → zeros_from (length (w.file ++ w.buffer)) ≡ replicate (pad_size w) 0
  zeros_is w es s some_zeros =
      let size : wal_align - length (w.file ++ w.buffer) % wal_align ≡ pad_size w =
        omega (arith, s.blocks, length-append w.file w.buffer, some_zeros) in
      ap (λ n. replicate n 0) size

  -- The file after a flush is what was in the file and the buffer, and the zeros.
  pub flushed_bytes :
      (w w' : Wal) → FlushedTo w w' → w'.file ≡ (w.file ++ w.buffer) ++ replicate (pad_size w) 0
  flushed_bytes w w' f = f.file_is ∙ sym (append_assoc w.file w.buffer (replicate (pad_size w) 0))

  flushed-Log :
      (w : Wal) (es : List Entry)
      → Stored d crc w es
      → Spaced w
      → Log d crc 0 0 ((w.file ++ w.buffer) ++ replicate (pad_size w) 0) es
  flushed-Log w es s spaced = elim (ℕ-cases (pad_size w) 0) [
    | inl full ↦ rw (full, append-nil (w.file ++ w.buffer)) s.log
    | inr some_zeros ↦
        let bs = w.file ++ w.buffer in
        let zeros : List ℕ = replicate (pad_size w) 0 in
        let is : zeros ≡ zeros_from (0 + length bs) ++ [] =
          sym (zeros_is w es s some_zeros)
          ∙ ap zeros_from (omega arith)
          ∙ sym (append-nil (zeros_from (0 + length bs))) in
        let wide : 8 ≤ length (zeros_from (0 + length bs)) = omega (
          arith,
          ap length (is ∙ append-nil (zeros_from (0 + length bs))),
          length-replicate {A = ℕ} (pad_size w) 0,
          spaced,
          some_zeros,
        ) in
        let end =
          nothing (0 + length bs + length (zeros_from (0 + length bs))) (last_of 0 es) [] [] refl
            refl in
        let more = padding (0 + length bs) (last_of 0 es) zeros [] [] is wide end in
        subst (λ l. Log d crc 0 0 (bs ++ zeros) l) (append-nil es)
          (Log-append d crc 0 0 bs es zeros [] s.log more)
  ]

  pub flushed-Stored :
      (w w' : Wal) (es : List Entry)
      → Stored d crc w es
      → FlushedTo w w'
      → Spaced w
      → Stored d crc w' es
  flushed-Stored w w' es s f spaced =
      let bytes_are = flushed_bytes w w' f in
      let all_bytes : w'.file ++ w'.buffer ≡ (w.file ++ w.buffer) ++ replicate (pad_size w) 0 =
        ap (λ l. w'.file ++ l) f.buffer_is ∙ append-nil w'.file ∙ bytes_are in
      record {
        log = rw all_bytes (flushed-Log w es s spaced);
        blocks = omega (
          arith,
          ap length bytes_are,
          length-append (w.file ++ w.buffer) (replicate (pad_size w) 0),
          length-append w.file w.buffer,
          length-replicate {A = ℕ} (pad_size w) 0,
          s.blocks,
        );
        next_is = f.same_sequence ∙ s.next_is;
        is = record {
          blocks = rw f.same_size s.is.blocks;
          fits = omega (arith, ap length f.buffer_is);
          starts = rw f.same_sequence s.is.starts;
        };
        crc_is = f.same_crc ∙ s.crc_is;
        single = f.same_pattern ∙ s.single;
      }

  -- A record that is put behind a log is one that the reader accepts.
  pub put-Stored :
      (w : Wal) (es : List Entry) (type : ℕ) (payload : List ℕ)
      → Stored d crc w es
      → length w.buffer + total_size w payload ≤ w.buffer_size
      → IsRecord (last_of 0 es) w.sequence type payload
      → (leb 128 type && d.handler type payload) ≡ false
      → let e : Entry = record { seq = w.sequence; type = type; payload = payload } in
        Stored d crc (put_record w type payload).1 (es ++ (e ∷ []))
  put-Stored w es type payload s room good accepted =
      let e : Entry = record { seq = w.sequence; type = type; payload = payload } in
      let added = record_bytes crc w.sequence type payload in
      let bs = w.file ++ w.buffer in
      let end = nothing (0 + length bs + length added) w.sequence [] [] refl refl in
      let more =
        entry (0 + length bs) (last_of 0 es) added (e ∷ []) e [] [] (sym (append-nil added)) refl
          good accepted end in
      let log = Log-append d crc 0 0 bs es added (e ∷ []) s.log more in
      let added_is : record_bytes w.enable_crc32 w.sequence type payload ≡ added =
        ap (λ c. record_bytes c w.sequence type payload) s.crc_is in
      record {
        log = rw (added_is, sym (append_assoc w.file w.buffer added)) log;
        blocks = s.blocks;
        next_is = ap (λ n. n + 1) (sym (last_of_append 0 es e));
        is = put_record-IsWal w type payload s.is room;
        crc_is = s.crc_is;
        single = s.single;
      }
