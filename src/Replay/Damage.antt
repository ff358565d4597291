-- ===== src/Replay/Damage.antt =====
-- src/om_wal.c: what the reader reports of a file that ends early, and of zeros before a header
-- that are too few to be a header of their own.
use veloxmatch.Base.{
  ℕ, zero, suc, ◌+◌, ◌-◌, ◌≤◌, ◌<◌, ◌≡◌, refl, ap, sym, ◌∙◌, true, false, List, [], ◌∷◌, ◌++◌,
  length, take, arith, ltb, lt→ltb, le→ltb-false, append-nil, take-append_left, if◌then◌else◌,
  ==_ne, le→leb, inl, inr, length-append, length-replicate, replicate,
}
use veloxmatch.Wal.{record_bytes, pack_header, header_type, header_len, header_seq}
use veloxmatch.Wal.Header.{pack_header_lem}
use veloxmatch.Replay.{Disk, Replay, ReadError, answer, failed, available, number, fill_until}
use veloxmatch.Replay.Next.{take_record, replay_round, bad_header}
use veloxmatch.Replay.Fill.{IsReading, IsReplay, unread, fill_until-Same, position, length-unread}
use veloxmatch.Replay.Turn.{IsRecord}
use veloxmatch.Replay.Codec.{length-record, record_bytes-Parts}
use veloxmatch.Replay.Rounds.{
  replay_round_more, read_header_record, take-window, header_at, seq-pos, checksum_size,
}

number-zeros-pos :
    (k n b : ℕ) (ws : List ℕ) → k < n → 0 < b → 0 < number (take n (replicate k 0 ++ (b ∷ ws)))
unfolding number
number-zeros-pos zero zero b ws h pos = absurd (omega arith)
number-zeros-pos zero (suc n) b ws h pos = omega arith
number-zeros-pos (suc k) zero b ws h pos = absurd (omega arith)
number-zeros-pos (suc k) (suc n) b ws h pos =
    omega (arith, number-zeros-pos k n b ws (omega arith) pos)

-- The type of a header that begins with three zeros is 0.
type-zeros : (ws : List ℕ) → header_type (number (0 ∷ 0 ∷ 0 ∷ ws)) ≡ 0
unfolding number
type-zeros ws = omega arith

take_record-type :
    (d : Disk) (offset packed : ℕ) (r : Replay)
    → header_type packed ≡ 0
    → (take_record d offset packed r).0 ≡ answer (failed ReadError.wal_read)
unfolding take_record
take_record-type d offset packed r tag = rw tag refl

-- Three to seven zeros before bytes the first of which is not 0, at least eight bytes in all, are
-- never skipped: the round answers OM_ERR_WAL_READ.
pub replay_round-short_padding :
    (d : Disk) (k b : ℕ) (ws : List ℕ) (r : Replay)
    → IsReading d
    → IsReplay r
    → 3 ≤ k
    → k < 8
    → 0 < b
    → 7 ≤ k + length ws
    → unread r ≡ replicate k 0 ++ (b ∷ ws)
    → (replay_round d r).0 ≡ answer (failed ReadError.wal_read)
replay_round-short_padding d k b ws r reading v three short pos enough e =
    let whole : length (unread r) ≡ k + suc (length ws) =
      ap length e
      ∙ length-append (replicate k 0) (b ∷ ws)
      ∙ ap (λ n. n + suc (length ws)) (length-replicate k 0) in
    let (filled_ok, same, filled) = fill_until-Same d 8 r reading v (omega (arith, v.block)) in
    let q = (fill_until d 8 r).1 in
    let there : 8 ≤ available q = elim filled [
      | inl h ↦ h
      | inr whole_file ↦ omega (arith, whole, whole_file)
    ] in
    let packed = number (take 8 (replicate k 0 ++ (b ∷ ws))) in
    let nonzero : 0 < packed = number-zeros-pos k 8 b ws short pos in
    let rest = take 5 (replicate (k - 3) 0 ++ (b ∷ ws)) in
    let more : k ≡ suc (suc (suc (k - 3))) = omega arith in
    let zeros : take 8 (replicate k 0 ++ (b ∷ ws)) ≡ 0 ∷ 0 ∷ 0 ∷ rest =
      ap (λ n. take 8 (replicate n 0 ++ (b ∷ ws))) more in
    let tag : header_type packed ≡ 0 = ap (λ l. header_type (number l)) zeros ∙ type-zeros rest in
    let looked : header_at q ≡ packed =
      rw (le→leb 8 (available q) there, take-window q 8 there, same.rest, e) refl in
    rw
      (
        replay_round_more d r (omega (arith, whole)),
        read_header_record d packed r filled_ok
            (==_ne (available q) 0 (λ z. omega (arith, z, there))) looked
            (==_ne packed 0 (λ z. omega (arith, z, nonzero))),
      )
      (take_record-type d (position q) packed q tag)

take_record_cut :
    (d : Disk) (offset packed seq type : ℕ) (payload : List ℕ) (r : Replay)
    → let total = 8 + length payload + (if r.enable_crc32 then 4 else 0) in
      header_type packed ≡ type
      → header_len packed ≡ length payload
      → header_seq packed ≡ seq
      → bad_header r.last_sequence type seq ≡ false
      → ltb r.buffer_size total ≡ false
      → (fill_until d total r).0 ≡ true
      → ltb (available (fill_until d total r).1) total ≡ true
      → (take_record d offset packed r).0 ≡ answer (failed ReadError.wal_truncated)
unfolding take_record
take_record_cut d offset packed seq type payload r tag len num header room filled short =
    rw (tag, len, num, header, room, filled, short) refl

-- A file that ends within a record, behind its header, is reported: the round answers
-- OM_ERR_WAL_TRUNCATED.
pub replay_round-cut :
    (d : Disk) (seq type : ℕ) (payload front back : List ℕ) (r : Replay)
    → IsReading d
    → IsReplay r
    → IsRecord r.last_sequence seq type payload
    → front ++ back ≡ record_bytes r.enable_crc32 seq type payload
    → 0 < length back
    → 8 ≤ length front
    → unread r ≡ front
    → (replay_round d r).0 ≡ answer (failed ReadError.wal_truncated)
replay_round-cut d seq type payload front back r reading v good whole lost header_there e =
    let total = 8 + length payload + (if r.enable_crc32 then 4 else 0) in
    let packed = pack_header seq type (length payload) in
    let size : length front + length back ≡ total =
      sym (length-append front back)
      ∙ ap length whole
      ∙ length-record r.enable_crc32 seq type payload in
    let left : length (unread r) ≡ length front = ap length e in
    let (filled_ok, same, filled) = fill_until-Same d 8 r reading v (omega (arith, v.block)) in
    let q = (fill_until d 8 r).1 in
    let there : 8 ≤ available q = elim filled [
      | inl h ↦ h
      | inr whole_file ↦ omega (arith, left, header_there, whole_file)
    ] in
    let last : q.last_sequence ≡ r.last_sequence = ap (λ x. x.last_sequence) same.moved in
    let crc : q.enable_crc32 ≡ r.enable_crc32 = ap (λ x. x.enable_crc32) same.moved in
    let size_is : q.buffer_size ≡ r.buffer_size = ap (λ x. x.buffer_size) same.moved in
    let extra : (if r.enable_crc32 then 4 else 0) ≤ 4 = checksum_size r.enable_crc32 in
    let (seq_is, type_is, len_is, nonzero) =
      pack_header_lem seq type (length payload) (seq-pos r.last_sequence type seq good.header)
        good.seq_bound good.type_bound good.size in
    let parts = record_bytes-Parts r.enable_crc32 seq type payload [] in
    let same_front : take 8 (unread q)
        ≡ take 8 (record_bytes r.enable_crc32 seq type payload ++ []) =
      ap (take 8) (same.rest ∙ e)
      ∙ sym (take-append_left 8 front back header_there)
      ∙ ap (take 8) (whole ∙ sym (append-nil (record_bytes r.enable_crc32 seq type payload))) in
    let looked : header_at q ≡ packed =
      rw (le→leb 8 (available q) there, take-window q 8 there, same_front) parts.packed in
    let total_q = 8 + length payload + (if q.enable_crc32 then 4 else 0) in
    let total_is : total_q ≡ total = ap (λ c. 8 + length payload + (if c then 4 else 0)) crc in
    let fits : total_q ≤ q.buffer_size =
      omega (arith, total_is, extra, good.size, v.block, size_is) in
    let (filled_ok', same', filled') = fill_until-Same d total_q q reading same.is fits in
    let s = (fill_until d total_q q).1 in
    let short : available s < total_q = omega (
      arith,
      length-unread s,
      ap length same'.rest,
      ap length same.rest,
      left,
      size,
      total_is,
      lost,
    ) in
    rw
      (
        replay_round_more d r (omega (arith, left, header_there)),
        read_header_record d packed r filled_ok
            (==_ne (available q) 0 (λ z. omega (arith, z, there))) looked (==_ne packed 0 nonzero),
      )
      (take_record_cut d (position q) packed seq type payload q type_is len_is seq_is
        (rw last good.header) (le→ltb-false q.buffer_size total_q fits) filled_ok'
        (lt→ltb (available s) total_q short))
