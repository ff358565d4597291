-- ===== src/Replay/Turn.antt =====
-- src/om_wal.c: a round of the loop of `om_wal_replay_next` at a record and at padding.
use veloxmatch.Base.{
  ℕ, ◌+◌, ◌≤◌, ◌<◌, ◌≡◌, refl, ap, sym, ◌∙◌, true, false, ◌&&◌, List, ◌++◌, length, take, drop,
  arith, ltb, leb, le→ltb-false, Bool-cases, inl, inr, length-append, drop-length-append, drop-drop,
  append-front, if◌then◌else◌,
}
use veloxmatch.Wal.{
  pack_header, record_bytes, crc32_compute, max_sequence, header_type, header_len, header_seq,
}
use veloxmatch.Wal.Header.{pack_header_lem}
use veloxmatch.Replay.{Disk, Replay, Round, answer, got, available, window, number, fill_until}
use veloxmatch.Replay.Next.{bad_header, bad_layout, verify, take_record}
use veloxmatch.Replay.Fill.{IsReading, IsReplay, unread, Moved, fill_until-Same, length-window}
use veloxmatch.Replay.Codec.{Parts, record_bytes-Parts, length-record, body}

-- A record that the reader accepts behind number `last`.
pub record IsRecord (last seq type : ℕ) (payload : List ℕ) : Type 0 where
  pub header : bad_header last type seq ≡ false
  pub layout : bad_layout type payload ≡ false
  pub seq_bound : seq < max_sequence
  pub type_bound : type < 256
  pub size : length payload < 65536

-- `r'` stands behind what `r` has read: the number read last, and what is then unread.
pub record Advanced (r r' : Replay) (last : ℕ) (rest : List ℕ) : Type 0 where
  pub is : IsReplay r'
  pub rest_is : unread r' ≡ rest
  pub last_is : r'.last_sequence ≡ last
  pub same_file : r'.file ≡ r.file
  pub same_size : r'.buffer_size ≡ r.buffer_size
  pub same_crc : r'.enable_crc32 ≡ r.enable_crc32
  pub same_pattern : r'.has_pattern ≡ r.has_pattern
  pub same_index : r'.file_index ≡ r.file_index

-- Taking `front` off the front of the buffer.
pub advance :
    (r r' : Replay) (n : ℕ) (front t rest : List ℕ)
    → IsReplay r
    → length front ≡ n
    → window r ≡ front ++ t
    → t ++ drop r.file_offset r.file ≡ rest
    → r' ≡ record r {
      buffer_pos = r.buffer_pos + n;
      last_sequence = r'.last_sequence;
      last_record_offset = r'.last_record_offset;
      last_stored_crc = r'.last_stored_crc;
      last_computed_crc = r'.last_computed_crc;
    }
    → Advanced r r' r'.last_sequence rest
advance r r' n front t rest v n_is e left is =
    let pos : r'.buffer_pos ≡ r.buffer_pos + n = ap (λ x. x.buffer_pos) is in
    let buffer : r'.buffer ≡ r.buffer = ap (λ x. x.buffer) is in
    let offset : r'.file_offset ≡ r.file_offset = ap (λ x. x.file_offset) is in
    let file : r'.file ≡ r.file = ap (λ x. x.file) is in
    let size : r'.buffer_size ≡ r.buffer_size = ap (λ x. x.buffer_size) is in
    let room : n ≤ available r =
      omega (arith, n_is, ap length e, length-append front t, length-window r) in
    let window_is : window r' ≡ t =
      rw (pos, buffer)
        (sym (drop-drop n r.buffer_pos r.buffer)
          ∙ ap (drop n) e
          ∙ ap (λ k. drop k (front ++ t)) (sym n_is)
          ∙ drop-length-append front t) in
    record {
      is = record {
        inside = rw (pos, buffer) (omega (arith, v.inside, room));
        behind = rw (pos, buffer, offset) (omega (arith, v.behind));
        offset = rw (offset, file) v.offset;
        fits = rw (buffer, size) v.fits;
        block = rw size v.block;
      };
      rest_is = rw (window_is, offset, file) left;
      last_is = refl;
      same_file = file;
      same_size = size;
      same_crc = ap (λ x. x.enable_crc32) is;
      same_pattern = ap (λ x. x.has_pattern) is;
      same_index = ap (λ x. x.file_index) is;
    }

-- A record whose bytes are in the buffer is handed out.
verify_lem :
    (d : Disk) (offset seq type : ℕ) (payload ws : List ℕ) (r : Replay)
    → window r ≡ ws
    → Parts r.enable_crc32 seq type payload ws
    → (leb 128 type && d.handler type payload) ≡ false
    → (r' : Replay) × (verify d offset type seq payload r ≡ (answer (got type seq payload), r'))
      × (r'.last_sequence ≡ seq)
      × (r' ≡ record r {
        buffer_pos = r.buffer_pos + (8 + length payload + (if r.enable_crc32 then 4 else 0));
        last_sequence = r'.last_sequence;
        last_record_offset = r'.last_record_offset;
        last_stored_crc = r'.last_stored_crc;
        last_computed_crc = r'.last_computed_crc;
      })
verify_lem d offset seq type payload ws r w parts accepted =
    let size = 8 + length payload in
    let noted = record r { last_record_offset = offset } in
    let computed = crc32_compute (take size (window r)) in
    let stored = number (take 4 (drop size (window r))) in
    let checked = record noted { last_stored_crc = stored; last_computed_crc = computed } in
    elim (Bool-cases r.enable_crc32) [
      | inl on ↦
          let after = record checked {
            buffer_pos = r.buffer_pos + (size + 4);
            last_sequence = seq;
          } in
          let covered : take size (window r) ≡ body seq type payload = rw w parts.covered in
          let sum : stored ≡ computed = rw (covered, w) (parts.stored on) in
          let is : verify d offset type seq payload r ≡ (answer (got type seq payload), after) =
            ground (arith, on, sum, accepted) in
          (after, is, refl, rw on refl)
      | inr off ↦
          let after = record noted { buffer_pos = r.buffer_pos + size; last_sequence = seq } in
          let is : verify d offset type seq payload r ≡ (answer (got type seq payload), after) =
            ground (arith, off, accepted) in
          let sum : size + 0 ≡ size = omega arith in (after, is, refl, rw (off, sum) refl)
    ]

-- The bytes that are unread begin in the buffer, if it holds as many.
pub in_buffer :
    (r : Replay) (front rest : List ℕ)
    → unread r ≡ front ++ rest
    → length front ≤ available r
    → (t : List ℕ) × (window r ≡ front ++ t) × (t ++ drop r.file_offset r.file ≡ rest)
in_buffer r front rest e h =
    append-front front rest (window r) (drop r.file_offset r.file) e
      (omega (arith, length-window r, h))

-- The answer of a round, and what is then unread.
abbrev pub Reads : Replay → Round × Replay → Round → ℕ → List ℕ → Type 0
Reads r out result last rest = (out.0 ≡ result) × Advanced r out.1 last rest

pub Advanced-Same :
    (r q s : Replay) (last : ℕ) (rest : List ℕ)
    → Moved r q
    → Advanced q s last rest
    → Advanced r s last rest
Advanced-Same r q s last rest m a = record {
  is = a.is;
  rest_is = a.rest_is;
  last_is = a.last_is;
  same_file = a.same_file ∙ ap (λ x. x.file) m;
  same_size = a.same_size ∙ ap (λ x. x.buffer_size) m;
  same_crc = a.same_crc ∙ ap (λ x. x.enable_crc32) m;
  same_pattern = a.same_pattern ∙ ap (λ x. x.has_pattern) m;
  same_index = a.same_index ∙ ap (λ x. x.file_index) m;
}

-- The guards of `take_record` that let a record through.
take_record_guards :
    (d : Disk) (offset packed seq type : ℕ) (payload : List ℕ) (r : Replay)
    → let total = 8 + length payload + (if r.enable_crc32 then 4 else 0) in
      let q = (fill_until d total r).1 in
      header_type packed ≡ type
      → header_len packed ≡ length payload
      → header_seq packed ≡ seq
      → bad_header r.last_sequence type seq ≡ false
      → ltb r.buffer_size total ≡ false
      → (fill_until d total r).0 ≡ true
      → ltb (available q) total ≡ false
      → take (length payload) (drop 8 (window q)) ≡ payload
      → bad_layout type payload ≡ false
      → take_record d offset packed r ≡ verify d offset type seq payload q
unfolding take_record
take_record_guards d offset packed seq type payload r tag len num header room filled there data_is
      layout =
    rw (tag, len, num, header, room, filled, there, data_is, layout) refl

pub take_record-Reads :
    (d : Disk) (offset seq type : ℕ) (payload rest : List ℕ) (r : Replay)
    → IsReading d
    → IsReplay r
    → IsRecord r.last_sequence seq type payload
    → length (record_bytes r.enable_crc32 seq type payload) ≤ r.buffer_size
    → unread r ≡ record_bytes r.enable_crc32 seq type payload ++ rest
    → 0 < seq
    → (leb 128 type && d.handler type payload) ≡ false
    → Reads r
        (take_record d offset (pack_header seq type (length payload)) r)
        (answer (got type seq payload))
        seq
        rest
take_record-Reads d offset seq type payload rest r reading v good room e pos accepted =
    let packed = pack_header seq type (length payload) in
    let front = record_bytes r.enable_crc32 seq type payload in
    let total = 8 + length payload + (if r.enable_crc32 then 4 else 0) in
    let size : length front ≡ total = length-record r.enable_crc32 seq type payload in
    let (seq_is, type_is, len_is, nonzero) =
      pack_header_lem seq type (length payload) pos good.seq_bound good.type_bound good.size in
    let whole : length (unread r) ≡ length front + length rest =
      ap length e ∙ length-append front rest in
    let (filled_ok, same, filled) =
      fill_until-Same d total r reading v (omega (arith, size, room)) in
    let there : total ≤ available (fill_until d total r).1 = elim filled [
      | inl enough ↦ enough
      | inr whole_file ↦ omega (arith, size, whole, whole_file)
    ] in
    let q = (fill_until d total r).1 in
    let crc : q.enable_crc32 ≡ r.enable_crc32 = ap (λ x. x.enable_crc32) same.moved in
    let (t, w, left) = in_buffer q front rest (same.rest ∙ e) (omega (arith, size, there)) in
    let parts : Parts q.enable_crc32 seq type payload (front ++ t) =
      rw crc (record_bytes-Parts r.enable_crc32 seq type payload t) in
    let data_is : take (length payload) (drop 8 (window q)) ≡ payload = rw w parts.data_bytes in
    let total_q = 8 + length payload + (if q.enable_crc32 then 4 else 0) in
    let size_q : length front ≡ total_q = rw crc size in
    let (after, is, last_is, shape) =
      verify_lem d offset seq type payload (front ++ t) q w parts accepted in
    let step : take_record d offset packed r ≡ verify d offset type seq payload q =
      take_record_guards d offset packed seq type payload r type_is len_is seq_is good.header
        (le→ltb-false r.buffer_size total (omega (arith, room, size))) filled_ok
        (le→ltb-false (available q) total there) data_is good.layout in
    rw (step, is)
      (
        refl,
        Advanced-Same r q after seq rest same.moved
            (rw last_is at (advance q after total_q front t rest same.is size_q w left shape)),
      )
