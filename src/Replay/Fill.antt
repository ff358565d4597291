-- ===== src/Replay/Fill.antt =====
-- src/om_wal.c: `replay_fill_buffer` and the loops around it. Reading ahead changes what is in
-- the buffer and what is left in the file, not the bytes that are still unread.
use veloxmatch.Base.{
  ℕ, zero, suc, ◌+◌, ◌-◌, ◌≤◌, ◌<◌, ◌≡◌, refl, ap, sym, ◌∙◌, true, ◌&&◌, List, ◌++◌, length, take,
  drop, arith, ◌⊎◌, ltb, Bool-cases, inl, inr, append_assoc, drop-drop, length-drop, length-append,
  take-append_drop, length-take,
}
use veloxmatch.Replay.{Disk, Replay, available, window, to_read, fill_buffer, fill_loop, fill_until}

-- What POSIX promises of `read` before the end of a regular file without an error: some bytes,
-- no more than were asked for.
pub record IsReading (d : Disk) : Type 0 where
  pub reads : (offset asked : ℕ) → 0 < asked → 0 < d.read offset asked
  pub within : (offset asked : ℕ) → d.read offset asked ≤ asked

-- The positions are inside the buffer and the file, and the buffer holds a block and the longest
-- record.
pub record IsReplay (r : Replay) : Type 0 where
  pub inside : r.buffer_pos ≤ length r.buffer
  pub behind : available r ≤ r.file_offset
  pub offset : r.file_offset ≤ length r.file
  pub fits : length r.buffer ≤ r.buffer_size
  pub block : 65547 ≤ r.buffer_size

-- The bytes of the file that have not been taken.
abbrev pub unread : Replay → List ℕ
unread r = window r ++ drop r.file_offset r.file

-- Nothing but the buffer and the positions differs.
abbrev pub Moved : Replay → Replay → Type 0
Moved r r' =
    r' ≡ record r { buffer = r'.buffer; buffer_pos = r'.buffer_pos; file_offset = r'.file_offset }

-- `r'` stands where `r` stands.
pub record Same (r r' : Replay) : Type 0 where
  pub moved : Moved r r'
  pub is : IsReplay r'
  pub rest : unread r' ≡ unread r

pub length-window : (r : Replay) → length (window r) ≡ available r
length-window r = length-drop r.buffer_pos r.buffer

pub length-unread : (r : Replay) → length (unread r) ≡ available r + (length r.file - r.file_offset)
length-unread r = omega (
  arith,
  length-append (window r) (drop r.file_offset r.file),
  length-window r,
  length-drop r.file_offset r.file,
)

Same-refl : (r : Replay) → IsReplay r → Same r r
Same-refl r v = record { moved = refl; is = v; rest = refl }

Same-trans : (p q r : Replay) → Same p q → Same q r → Same p r
Same-trans p q r a b = record {
  moved =
      b.moved
      ∙ ap {A = Replay} {B = Replay}
          (λ x. record x {
            buffer = r.buffer;
            buffer_pos = r.buffer_pos;
            file_offset = r.file_offset;
          })
          a.moved;
  is = b.is;
  rest = b.rest ∙ a.rest;
}

fill_buffer-Same :
    (d : Disk) (r : Replay)
    → IsReading d
    → IsReplay r
    → available r < r.buffer_size
    → r.file_offset < length r.file
    → ((fill_buffer d r).0 ≡ true)
      × Same r (fill_buffer d r).1
      × (r.file_offset < (fill_buffer d r).1.file_offset)
unfolding fill_buffer
fill_buffer-Same d r reading v room more =
    let n = d.read r.file_offset (to_read r) in
    let some_bytes : 0 < n = reading.reads r.file_offset (to_read r) (omega arith) in
    let within : n ≤ to_read r = reading.within r.file_offset (to_read r) in
    let after = record r {
      buffer = window r ++ take n (drop r.file_offset r.file);
      buffer_pos = 0;
      file_offset = r.file_offset + n;
    } in
    let is : fill_buffer d r ≡ (true, after) = ground (arith, some_bytes) in
    let size : length after.buffer ≡ available r + n = omega (
      arith,
      length-append (window r) (take n (drop r.file_offset r.file)),
      length-window r,
      length-take n (drop r.file_offset r.file),
      length-drop r.file_offset r.file,
      v.offset,
    ) in
    let joined : unread after ≡ unread r =
      append_assoc (window r) (take n (drop r.file_offset r.file)) (drop (r.file_offset + n) r.file)
      ∙ ap (λ t. window r ++ t)
          (ap (λ t. take n (drop r.file_offset r.file) ++ t)
              (sym (drop-drop n r.file_offset r.file))
            ∙ take-append_drop n (drop r.file_offset r.file)) in
    rw is (
      refl,
      record {
        moved = refl;
        is = record {
          inside = omega arith;
          behind = omega (arith, size, v.behind);
          offset = omega (arith, within, more);
          fits = omega (arith, size, within);
          block = v.block;
        };
        rest = joined;
      },
      omega (arith, some_bytes),
    )

-- The loop delivers what is wanted if so much is unread.
fill_loop-Same :
    (n : ℕ) (d : Disk) (wanted : ℕ) (r : Replay)
    → IsReading d
    → IsReplay r
    → wanted ≤ r.buffer_size
    → length r.file - r.file_offset ≤ n
    → ((fill_loop n d wanted r).0 ≡ true)
      × Same r (fill_loop n d wanted r).1
      × ((wanted ≤ available (fill_loop n d wanted r).1)
          ⊎ ((fill_loop n d wanted r).1.file_offset ≡ length r.file))
unfolding fill_loop
fill_loop-Same zero d wanted r reading v w enough =
    (refl, Same-refl r v, inr (omega (arith, v.offset)))
fill_loop-Same (suc n) d wanted r reading v w enough =
    elim (Bool-cases (ltb (available r) wanted && ltb r.file_offset (length r.file))) [
      | inr stops ↦
          let is : fill_loop (suc n) d wanted r ≡ (true, r) = ground (arith, stops) in
          rw is (refl, Same-refl r v, ground (arith, stops, v.offset))
      | inl goes ↦
          let r' = (fill_buffer d r).1 in
          let (good, same, onward) =
            fill_buffer-Same d r reading v (ground (arith, goes)) (ground (arith, goes)) in
          let is : fill_loop (suc n) d wanted r ≡ fill_loop n d wanted r' =
            ground (arith, goes, good) in
          let file : r'.file ≡ r.file = ap (λ x. x.file) same.moved in
          let size : r'.buffer_size ≡ r.buffer_size = ap (λ x. x.buffer_size) same.moved in
          let ih =
            fill_loop-Same n d wanted r' reading same.is (rw size w) (rw file (omega arith)) in
          rw is (ih.0, Same-trans r r' (fill_loop n d wanted r').1 same ih.1, rw file at ih.2)
    ]

-- Where the reader stands in the file.
abbrev pub position : Replay → ℕ
position r = r.file_offset + r.buffer_pos - length r.buffer

pub position-unread : (r : Replay) → IsReplay r → position r + length (unread r) ≡ length r.file
position-unread r v = omega (arith, length-unread r, v.inside, v.behind, v.offset)

pub position-Same : (r q : Replay) → IsReplay r → Same r q → position q ≡ position r
position-Same r q v s =
    let file : length q.file ≡ length r.file = ap (λ x. length x.file) s.moved in
    omega (arith, position-unread r v, position-unread q s.is, ap length s.rest, file)

-- The loops before a header, a block and a record end where they began in the file, with what is
-- wanted in the buffer or all that is unread, whatever the calls of `read` deliver.
pub fill_until-Same :
    (d : Disk) (wanted : ℕ) (r : Replay)
    → IsReading d
    → IsReplay r
    → wanted ≤ r.buffer_size
    → ((fill_until d wanted r).0 ≡ true)
      × Same r (fill_until d wanted r).1
      × ((wanted ≤ available (fill_until d wanted r).1)
          ⊎ (length (unread r) ≡ available (fill_until d wanted r).1))
fill_until-Same d wanted r reading v w =
    let (good, same, full) =
      fill_loop-Same (length r.file - r.file_offset) d wanted r reading v w (omega arith) in
    let r' = (fill_until d wanted r).1 in
    let file : length r'.file ≡ length r.file = ap (λ x. length x.file) same.moved in
    let left : length (unread r') ≡ length (unread r) = ap length same.rest in
    (
      good,
      same,
      elim full [
        | inl there ↦ inl there
        | inr over ↦ inr (omega (arith, length-unread r', left, file, over))
      ],
    )
