-- ===== src/Replay/Rounds.antt =====
-- src/om_wal.c: a whole round of the loop of `om_wal_replay_next`.
use veloxmatch.Base.{
  ℕ, zero, suc, ◌+◌, ◌-◌, ◌%◌, ◌≤◌, ◌<◌, ◌≡◌, ◌≢◌, refl, ap, sym, ◌∙◌, subst, Bool, true, false,
  ◌&&◌, ◌⊎◌, List, [], ◌∷◌, ◌++◌, length, take, drop, arith, ltb, leb, le→ltb-false, le→leb, leb→le,
  ==_ne, ==_refl, ◌==◌, Bool-cases, inl, inr, length-append, replicate, length-replicate,
  take-append_left, if◌then◌else◌,
}
use veloxmatch.Wal.{wal_align, pack_header, record_bytes}
use veloxmatch.Wal.Header.{pack_header_lem}
use veloxmatch.Replay.{
  Disk, Replay, again, answer, got, available, window, number, fill_until, all_zero,
}
use veloxmatch.Replay.Next.{bad_header, take_record, read_header, replay_round, skip_padding}
use veloxmatch.Replay.Fill.{
  IsReading, IsReplay, unread, fill_until-Same, length-window, length-unread, position,
  position-Same,
}
use veloxmatch.Replay.Codec.{record_bytes-Parts, length-record}
use veloxmatch.Replay.Turn.{
  IsRecord, Reads, Advanced, Advanced-Same, take_record-Reads, in_buffer, advance,
}

-- The header that is looked at, 0 if there is none.
abbrev pub header_at : Replay → ℕ
header_at q = if leb 8 (available q) then number (take 8 (window q)) else 0

pub read_header_record :
    (d : Disk) (packed : ℕ) (r : Replay)
    → let q = (fill_until d 8 r).1 in
      (fill_until d 8 r).0 ≡ true
      → (available q == 0) ≡ false
      → header_at q ≡ packed
      → (packed == 0) ≡ false
      → read_header d r ≡ take_record d (position q) packed q
unfolding read_header
read_header_record d packed r filled there is nonzero = rw (filled, there, is, nonzero) refl

read_header_padding :
    (d : Disk) (r : Replay)
    → let q = (fill_until d 8 r).1 in
      (fill_until d 8 r).0 ≡ true
      → (available q == 0) ≡ false
      → header_at q ≡ 0
      → read_header d r ≡ skip_padding d (position q) q
unfolding read_header
read_header_padding d r filled there is = rw (filled, there, is) refl

pub replay_round_more :
    (d : Disk) (r : Replay) → 0 < length (unread r) → replay_round d r ≡ read_header d r
unfolding replay_round
replay_round_more d r more =
    let goes : ((available r == 0) && leb (length r.file) r.file_offset) ≡ false =
      ground (arith, length-unread r, more) in
    rw goes refl

-- What is looked at first is what is unread first.
pub take-window : (q : Replay) (n : ℕ) → n ≤ available q → take n (window q) ≡ take n (unread q)
take-window q n h =
    sym (
      take-append_left n (window q) (drop q.file_offset q.file) (omega (arith, length-window q, h)))

pub seq-pos : (last type seq : ℕ) → bad_header last type seq ≡ false → 0 < seq
seq-pos last type seq h = ground arith

pub checksum_size : (crc : Bool) → (if crc then 4 else 0) ≤ 4
checksum_size true = omega arith
checksum_size false = omega arith

-- A record is handed out in one round, with its number, type and data, and the bytes behind it
-- are what is unread next.
pub replay_round-record :
    (d : Disk) (seq type : ℕ) (payload rest : List ℕ) (r : Replay)
    → IsReading d
    → IsReplay r
    → IsRecord r.last_sequence seq type payload
    → unread r ≡ record_bytes r.enable_crc32 seq type payload ++ rest
    → (leb 128 type && d.handler type payload) ≡ false
    → Reads r (replay_round d r) (answer (got type seq payload)) seq rest
replay_round-record d seq type payload rest r reading v good e accepted =
    let front = record_bytes r.enable_crc32 seq type payload in
    let packed = pack_header seq type (length payload) in
    let size = length-record r.enable_crc32 seq type payload in
    let extra = checksum_size r.enable_crc32 in
    let room : length front ≤ r.buffer_size = omega (arith, size, extra, good.size, v.block) in
    let whole : length (unread r) ≡ length front + length rest =
      ap length e ∙ length-append front rest in
    let (filled_ok, same, filled) = fill_until-Same d 8 r reading v (omega (arith, v.block)) in
    let q = (fill_until d 8 r).1 in
    let there : 8 ≤ available q = elim filled [
      | inl enough ↦ enough
      | inr whole_file ↦ omega (arith, size, whole, whole_file)
    ] in
    let last : q.last_sequence ≡ r.last_sequence = ap (λ x. x.last_sequence) same.moved in
    let crc : q.enable_crc32 ≡ r.enable_crc32 = ap (λ x. x.enable_crc32) same.moved in
    let size_is : q.buffer_size ≡ r.buffer_size = ap (λ x. x.buffer_size) same.moved in
    let pos = seq-pos r.last_sequence type seq good.header in
    let (seq_is, type_is, len_is, nonzero) =
      pack_header_lem seq type (length payload) pos good.seq_bound good.type_bound good.size in
    let parts = record_bytes-Parts r.enable_crc32 seq type payload rest in
    let looked : number (take 8 (window q)) ≡ packed =
      rw (take-window q 8 there, same.rest, e) parts.packed in
    let header : header_at q ≡ packed = rw (le→leb 8 (available q) there) looked in
    let more : 0 < length (unread r) = omega (arith, whole, size) in
    rw
      (
        replay_round_more d r more,
        read_header_record d packed r filled_ok
            (==_ne (available q) 0 (λ z. omega (arith, z, there))) header (==_ne packed 0 nonzero),
      )
      (let (is, after) =
          take_record-Reads d (position q) seq type payload rest q reading same.is (rw last good)
            (rw (crc, size_is) room) (rw crc (same.rest ∙ e)) pos accepted in
        (is, Advanced-Same r q (take_record d (position q) packed q).1 seq rest same.moved after))

all_zero-replicate : (n : ℕ) → all_zero (replicate n 0) ≡ true
all_zero-replicate zero = refl
all_zero-replicate (suc n) = rw (==_refl 0) (all_zero-replicate n)

number-zeros : (n : ℕ) → number (replicate n 0) ≡ 0
unfolding number
number-zeros zero = refl
number-zeros (suc n) = omega (arith, number-zeros n)

take-replicate : (n k : ℕ) (ws : List ℕ) → n ≤ k → take n (replicate k 0 ++ ws) ≡ replicate n 0
take-replicate zero k ws h = refl
take-replicate (suc n) zero ws h = absurd (omega arith)
take-replicate (suc n) (suc k) ws h = ap (◌∷◌ 0) (take-replicate n k ws (omega arith))

-- The zeros from the end of what was flushed to the next block boundary.
abbrev pub pad_at : Replay → ℕ
pad_at r = wal_align - position r % wal_align

skip_padding_guards :
    (d : Disk) (offset : ℕ) (r : Replay)
    → let pad = wal_align - offset % wal_align in
      let q = (fill_until d pad r).1 in
      (fill_until d pad r).0 ≡ true
      → ltb (available q) pad ≡ false
      → all_zero (take pad (window q)) ≡ true
      → skip_padding d offset r ≡ (again, record q { buffer_pos = q.buffer_pos + pad })
unfolding skip_padding
skip_padding_guards d offset r filled there zeros = rw (filled, there, zeros) refl

skip_padding-Reads :
    (d : Disk) (rest : List ℕ) (r : Replay)
    → IsReading d
    → IsReplay r
    → unread r ≡ replicate (pad_at r) 0 ++ rest
    → Reads r (skip_padding d (position r) r) again r.last_sequence rest
skip_padding-Reads d rest r reading v e =
    let pad = pad_at r in
    let zeros : List ℕ = replicate pad 0 in
    let (filled_ok, same, filled) = fill_until-Same d pad r reading v (omega (arith, v.block)) in
    let q = (fill_until d pad r).1 in
    let size : length zeros ≡ pad = length-replicate pad 0 in
    let there : pad ≤ available q = elim filled [
      | inl enough ↦ enough
      | inr whole_file ↦ omega (arith, ap length e, length-append zeros rest, size, whole_file)
    ] in
    let (t, w, left) = in_buffer q zeros rest (same.rest ∙ e) (omega (arith, size, there)) in
    let front : take pad (window q) ≡ zeros = rw w (take-replicate pad pad t (omega arith)) in
    let clean : all_zero (take pad (window q)) ≡ true = rw front (all_zero-replicate pad) in
    let after = record q { buffer_pos = q.buffer_pos + pad } in
    let last : q.last_sequence ≡ r.last_sequence = ap (λ x. x.last_sequence) same.moved in
    rw (skip_padding_guards d (position r) r filled_ok (le→ltb-false (available q) pad there) clean)
      (
        refl,
        subst (λ l. Advanced r after l rest) last
            (Advanced-Same r q after q.last_sequence rest same.moved
              (advance q after pad zeros t rest same.is size w left refl)),
      )

header_at-zeros :
    (q : Replay) (pad : ℕ) (rest : List ℕ)
    → unread q ≡ replicate pad 0 ++ rest
    → (8 ≤ pad) ⊎ (rest ≡ [])
    → header_at q ≡ 0
header_at-zeros q pad rest e tail = elim (Bool-cases (leb 8 (available q))) [
  | inr short ↦ rw short refl
  | inl long ↦
      let there : 8 ≤ available q = leb→le 8 (available q) long in
      let whole : length (unread q) ≡ pad + length rest =
        ap length e
        ∙ length-append (replicate pad 0) rest
        ∙ ap (λ n. n + length rest) (length-replicate pad 0) in
      let wide : 8 ≤ pad = elim tail [
        | inl h ↦ h
        | inr last ↦ omega (arith, whole, ap length last, length-unread q, there)
      ] in
      rw (long, take-window q 8 there, e, take-replicate 8 pad rest wide) (number-zeros 8)
]

-- Zeros up to the next block boundary are skipped in one round, if there are at least eight of
-- them or nothing is behind them.
pub replay_round-padding :
    (d : Disk) (rest : List ℕ) (r : Replay)
    → IsReading d
    → IsReplay r
    → unread r ≡ replicate (pad_at r) 0 ++ rest
    → (8 ≤ pad_at r) ⊎ (rest ≡ [])
    → Reads r (replay_round d r) again r.last_sequence rest
replay_round-padding d rest r reading v e tail =
    let pad = pad_at r in
    let whole : length (unread r) ≡ pad + length rest =
      ap length e
      ∙ length-append (replicate pad 0) rest
      ∙ ap (λ n. n + length rest) (length-replicate pad 0) in
    let (filled_ok, same, filled) = fill_until-Same d 8 r reading v (omega (arith, v.block)) in
    let q = (fill_until d 8 r).1 in
    let there : available q ≢ 0 = elim filled [
      | inl enough ↦ λ z. omega (arith, enough, z)
      | inr whole_file ↦ λ z. omega (arith, whole, whole_file, z)
    ] in
    let stands : position q ≡ position r = position-Same r q v same in
    let pads : pad_at q ≡ pad = ap (λ p. wal_align - p % wal_align) stands in
    let last : q.last_sequence ≡ r.last_sequence = ap (λ x. x.last_sequence) same.moved in
    rw
      (
        replay_round_more d r (omega (arith, whole)),
        read_header_padding d r filled_ok (==_ne (available q) 0 there)
            (header_at-zeros q pad rest (same.rest ∙ e) tail),
      )
      (let (is, after) = skip_padding-Reads d rest q reading same.is (rw pads (same.rest ∙ e)) in
        let s = (skip_padding d (position q) q).1 in
        (
          is,
          subst (λ l. Advanced r s l rest) last
              (Advanced-Same r q s q.last_sequence rest same.moved after),
        ))
