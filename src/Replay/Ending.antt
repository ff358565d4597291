-- ===== src/Replay/Ending.antt =====
-- src/om_wal.c: that `om_wal_replay_next` comes to an end, whatever the bytes are.
use veloxmatch.Base.{
  ℕ, zero, suc, ◌+◌, ◌-◌, ◌%◌, ◌≤◌, ◌<◌, ◌≡◌, ◌≢◌, refl, ap, ◌∙◌, Bool, true, false, not, ◌&&◌, inl,
  inr, none, some, List, length, take, drop, arith, ltb, leb, ltb-false→le, ◌==◌, ==_ne, ◌⊎◌,
  Bool-cases, if◌then◌else◌,
}
use veloxmatch.Wal.{wal_align, crc32_compute, header_type, header_seq, header_len}
use veloxmatch.Replay.{
  Disk, Replay, ReadError, Answer, Round, again, answer, failed, ended, available, window,
  fill_until, all_zero, number,
}
use veloxmatch.Replay.Next.{
  hand_out, verify, skip_padding, take_record, read_header, replay_round, replay_next, bad_header,
  bad_layout,
}
use veloxmatch.Replay.Fill.{IsReading, IsReplay, unread, fill_until-Same, length-unread, position}

abbrev goes : Round → Bool
goes again = true
goes (answer result) = false

record Stops (out : Round × Replay) : Type 0 where
  is : goes out.0 ≡ false

stops : {result : Answer} {r : Replay} → Stops (answer result, r)
stops = record { is = refl }

Round-cases : (x : Round) → (x ≡ again) ⊎ ((result : Answer) × (x ≡ answer result))
Round-cases again = inl refl
Round-cases (answer result) = inr (result, refl)

if-Stops : (b : Bool) {x y : Round × Replay} → Stops x → Stops y → Stops (if b then x else y)
if-Stops true h k = h
if-Stops false h k = k

hand_out-Stops :
    (d : Disk) (tag seq : ℕ) (payload : List ℕ) (total : ℕ) (r : Replay)
    → Stops (hand_out d tag seq payload total r)
hand_out-Stops d tag seq payload total r = if-Stops _ stops stops

verify-Stops :
    (d : Disk) (offset tag seq : ℕ) (payload : List ℕ) (r : Replay)
    → Stops (verify d offset tag seq payload r)
verify-Stops d offset tag seq payload r =
    let size = 8 + length payload in
    let stored = number (take 4 (drop size (window r))) in
    let computed = crc32_compute (take size (window r)) in
    let noted = record r { last_record_offset = offset } in
    let checked = record noted { last_stored_crc = stored; last_computed_crc = computed } in
    if-Stops _ (hand_out-Stops d tag seq payload size noted)
      (if-Stops _ stops (hand_out-Stops d tag seq payload (size + 4) checked))

take_record-Stops :
    (d : Disk) (offset packed : ℕ) (r : Replay) → Stops (take_record d offset packed r)
unfolding take_record
take_record-Stops d offset packed r =
    let total = 8 + header_len packed + (if r.enable_crc32 then 4 else 0) in
    let q = (fill_until d total r).1 in
    let payload = take (header_len packed) (drop 8 (window q)) in
    let stage5 =
      if-Stops (bad_layout (header_type packed) payload)
        (stops {result = failed ReadError.wal_read} {r = q})
        (verify-Stops d offset (header_type packed) (header_seq packed) payload q) in
    let stage4 =
      if-Stops (ltb (available q) total) (stops {result = failed ReadError.wal_truncated} {r = q})
        stage5 in
    let stage3 =
      if-Stops (not (fill_until d total r).0) (stops {result = failed ReadError.wal_read} {r = q})
        stage4 in
    let stage2 =
      if-Stops (ltb r.buffer_size total) (stops {result = failed ReadError.wal_truncated} {r = r})
        stage3 in
    if-Stops (bad_header r.last_sequence (header_type packed) (header_seq packed))
      (stops {result = failed ReadError.wal_read} {r = r}) stage2

-- A round that goes on has taken bytes.
record Onward (r r' : Replay) : Type 0 where
  is : IsReplay r'
  fewer : length (unread r') < length (unread r)
  same_pattern : r'.has_pattern ≡ r.has_pattern

skip_padding-Onward :
    (d : Disk) (r : Replay)
    → IsReading d
    → IsReplay r
    → goes (skip_padding d (position r) r).0 ≡ true
    → Onward r (skip_padding d (position r) r).1
unfolding skip_padding
skip_padding-Onward d r reading v going =
    let pad = wal_align - position r % wal_align in
    let (good, same, filled) = fill_until-Same d pad r reading v (omega (arith, v.block)) in
    let q = (fill_until d pad r).1 in
    elim (Bool-cases (ltb (available q) pad)) [
      | inl short ↦ absurd (ground (arith, good, short, going))
      | inr there ↦ elim (Bool-cases (all_zero (take pad (window q)))) [
        | inr dirty ↦ absurd (ground (arith, good, there, dirty, going))
        | inl clean ↦
            let after = record q { buffer_pos = q.buffer_pos + pad } in
            let room : pad ≤ available q = ltb-false→le (available q) pad there in
            let is : skip_padding d (position r) r ≡ (again, after) =
              ground (arith, good, there, clean) in
            rw is (record {
              is = record {
                inside = omega (arith, same.is.inside, room);
                behind = omega (arith, same.is.behind);
                offset = same.is.offset;
                fits = same.is.fits;
                block = same.is.block;
              };
              fewer =
                  omega (arith, length-unread after, length-unread q, ap length same.rest, room);
              same_pattern = ap (λ x. x.has_pattern) same.moved;
            })
      ]
    ]

read_header-Onward :
    (d : Disk) (r : Replay)
    → IsReading d
    → IsReplay r
    → 0 < length (unread r)
    → goes (read_header d r).0 ≡ true
    → Onward r (read_header d r).1
unfolding read_header
read_header-Onward d r reading v more going =
    let (good, same, filled) = fill_until-Same d 8 r reading v (omega (arith, v.block)) in
    let q = (fill_until d 8 r).1 in
    let there : (available q == 0) ≡ false = elim filled [
      | inl enough ↦ ==_ne (available q) 0 (λ z. omega (arith, enough, z))
      | inr whole_file ↦ ==_ne (available q) 0 (λ z. omega (arith, whole_file, more, z))
    ] in
    let packed = if leb 8 (available q) then number (take 8 (window q)) else 0 in
    elim (Bool-cases (packed == 0)) [
      | inr some_header ↦
          let is : read_header d r ≡ take_record d (position q) packed q =
            rw (good, there, some_header) refl in
          let stop : goes (read_header d r).0 ≡ false =
            rw is (take_record-Stops d (position q) packed q).is in
          absurd (ground (arith, stop, going))
      | inl no_header ↦
          let is : read_header d r ≡ skip_padding d (position q) q =
            rw (good, there, no_header) refl in
          let on = skip_padding-Onward d q reading same.is (rw is at going) in
          rw is (record {
            is = on.is;
            fewer = omega (arith, on.fewer, ap length same.rest);
            same_pattern = on.same_pattern ∙ ap (λ x. x.has_pattern) same.moved;
          })
    ]

replay_round-Onward :
    (d : Disk) (r : Replay)
    → IsReading d
    → IsReplay r
    → r.has_pattern ≡ false
    → goes (replay_round d r).0 ≡ true
    → Onward r (replay_round d r).1
unfolding replay_round
replay_round-Onward d r reading v single going =
    elim (Bool-cases ((available r == 0) && leb (length r.file) r.file_offset)) [
      | inl over ↦
          let is : replay_round d r ≡ (answer ended, r) = rw (over, single) refl in
          absurd (ground (arith, is, going))
      | inr more ↦
          let some_bytes : 0 < length (unread r) = ground (arith, more, length-unread r) in
          let is : replay_round d r ≡ read_header d r = rw more refl in
          rw is (read_header-Onward d r reading v some_bytes (rw is at going))
    ]

-- Whatever the bytes of a single file are and however `read` cuts them into pieces, a call of
-- `om_wal_replay_next` comes to an end: its loop makes at most one round more than bytes are
-- unread, and answers.
pub replay_next-answers :
    (m : ℕ) (d : Disk) (r : Replay)
    → IsReading d
    → IsReplay r
    → r.has_pattern ≡ false
    → length (unread r) < m
    → (replay_next m d r).0 ≢ none
unfolding replay_next
replay_next-answers zero d r reading v single fuel = absurd (omega arith)
replay_next-answers (suc n) d r reading v single fuel = elim (Round-cases (replay_round d r).0) [
  | inr (result, stop) ↦
      let is : (replay_next (suc n) d r).0 ≡ some result = ground (arith, stop) in
      λ e. ground (arith, is, e)
  | inl on ↦
      let r' = (replay_round d r).1 in
      let next_is : replay_next (suc n) d r ≡ replay_next n d r' = ground (arith, on) in
      let o = replay_round-Onward d r reading v single (rw on refl) in
      rw next_is (
        replay_next-answers n d r' reading o.is (o.same_pattern ∙ single)
          (omega (arith, o.fewer, fuel)))
]
