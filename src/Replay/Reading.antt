-- ===== src/Replay/Reading.antt =====
-- src/om_wal.c: the reader over the records of a log.
use veloxmatch.Base.{
  ℕ, zero, suc, ◌+◌, ◌-◌, ◌%◌, ◌≤◌, ◌<◌, ◌≡◌, refl, ap, sym, ◌∙◌, subst, Bool, true, false, ◌&&◌,
  ◌⊎◌, inl, inr, Option, some, List, [], ◌∷◌, ◌++◌, length, arith, leb, length-replicate,
  length-append, append_assoc, append-nil, ◌==◌,
}
use veloxmatch.Wal.{record_bytes, wal_align}
use veloxmatch.Replay.{Disk, Replay, Answer, again, answer, got, ended, available}
use veloxmatch.Replay.Next.{replay_next, replay_round}
use veloxmatch.Replay.Fill.{IsReading, IsReplay, unread, position, position-unread, length-unread}
use veloxmatch.Replay.Turn.{IsRecord, Advanced}
use veloxmatch.Replay.Rounds.{replay_round-record, replay_round-padding}
use veloxmatch.Replay.Stream.{Entry, Log, nothing, entry, padding, zeros_from, replay_all}

-- What may be behind the last record of a file: nothing, or zeros to the end of the block.
abbrev pub Tail : ℕ → List ℕ → Type 0
Tail p tail = (tail ≡ []) ⊎ (tail ≡ zeros_from p)

-- The reader of a single file stands at `p` before bytes and a tail.
pub record Stands (crc : Bool) (tail : List ℕ) (r : Replay) (p last : ℕ) (bs : List ℕ)
    : Type 0 where
  pub is : IsReplay r
  pub unread_is : unread r ≡ bs ++ tail
  pub at : position r ≡ p
  pub last_is : r.last_sequence ≡ last
  pub single : r.has_pattern ≡ false
  pub index_is : r.file_index ≡ 0
  pub crc_is : r.enable_crc32 ≡ crc
  pub tail_is : Tail (p + length bs) tail

replay_round_end :
    (d : Disk) (r : Replay)
    → unread r ≡ []
    → IsReplay r
    → r.has_pattern ≡ false
    → replay_round d r ≡ (answer ended, r)
unfolding replay_round
replay_round_end d r e v single =
    let none_left : length (unread r) ≡ 0 = ap length e in
    let over : ((available r == 0) && leb (length r.file) r.file_offset) ≡ true =
      ground (arith, none_left, length-unread r) in
    rw (over, single) refl

replay_next_answer :
    (d : Disk) (n : ℕ) (r : Replay) (x : Answer)
    → (replay_round d r).0 ≡ answer x
    → replay_next (suc n) d r ≡ (some x, (replay_round d r).1)
unfolding replay_next
replay_next_answer d n r x e = ground (arith, e)

replay_next_again :
    (d : Disk) (n : ℕ) (r : Replay)
    → (replay_round d r).0 ≡ again
    → replay_next (suc n) d r ≡ replay_next n d (replay_round d r).1
unfolding replay_next
replay_next_again d n r e = ground (arith, e)

Advanced-fewer :
    (r r' : Replay) (last : ℕ) (front rest : List ℕ)
    → unread r ≡ front ++ rest
    → Advanced r r' last rest
    → length (unread r) ≡ length front + length (unread r')
Advanced-fewer r r' last front rest e a =
    omega (arith, ap length e, length-append front rest, ap length a.rest_is)

module _ (d : Disk) (crc : Bool) where
  Advanced-Stands :
      (tail : List ℕ) (r r' : Replay) (p last last' : ℕ) (bs front cs : List ℕ)
      → Stands crc tail r p last bs
      → bs ≡ front ++ cs
      → Advanced r r' last' (cs ++ tail)
      → Stands crc tail r' (p + length front) last' cs
  Advanced-Stands tail r r' p last last' bs front cs s is a =
      let file : length r'.file ≡ length r.file = ap length a.same_file in
      let whole =
        Advanced-fewer r r' last' front (cs ++ tail)
          (s.unread_is ∙ ap (λ l. l ++ tail) is ∙ append_assoc front cs tail) a in
      let there : position r' ≡ p + length front =
        omega (arith, position-unread r s.is, position-unread r' a.is, file, whole, s.at) in
      let end : p + length bs ≡ p + length front + length cs =
        omega (arith, ap length is, length-append front cs) in
      record {
        is = a.is;
        unread_is = a.rest_is;
        at = there;
        last_is = a.last_is;
        single = a.same_pattern ∙ s.single;
        index_is = a.same_index ∙ s.index_is;
        crc_is = a.same_crc ∙ s.crc_is;
        tail_is = subst (λ q. Tail q tail) end s.tail_is;
      }

  -- What `om_wal_replay_next` answers with records `es` ahead: the end, or the first of them, and
  -- then the others are ahead.
  abbrev pub Delivers : ℕ → List ℕ → Option Answer × Replay → List Entry → Type 0
  Delivers m tail (result, r) [] = result ≡ some ended
  Delivers m tail (result, r) (e ∷ es) =
      (result ≡ some (got e.type e.seq e.payload))
      × (p : ℕ) × (bs : List ℕ) × Log d crc p e.seq bs es
      × Stands crc tail r p e.seq bs
      × (length (unread r) < m)

  end_lem :
      (m : ℕ) (tail : List ℕ) (r : Replay) (p last : ℕ)
      → IsReading d
      → Stands crc tail r p last []
      → length (unread r) < m
      → (replay_next m d r).0 ≡ some ended
  end_lem zero tail r p last reading s fuel = absurd (omega arith)
  end_lem (suc n) tail r p last reading s fuel = elim s.tail_is [
    | inl bare ↦
        let e = replay_round_end d r (s.unread_is ∙ bare) s.is s.single in
        rw (replay_next_answer d n r ended (ap (λ x. x.0) e)) refl
    | inr zeros ↦
        let front = zeros_from (p + 0) in
        let here : p + 0 ≡ position r = omega (arith, s.at) in
        let whole : unread r ≡ zeros_from (position r) ++ [] =
          s.unread_is ∙ zeros ∙ ap zeros_from here ∙ sym (append-nil (zeros_from (position r))) in
        let (is, after) = replay_round-padding d [] r reading s.is whole (inr refl) in
        let r' = (replay_round d r).1 in
        let fewer : length (unread r') < n = omega (
          arith,
          fuel,
          Advanced-fewer r r' r.last_sequence (zeros_from (position r)) [] whole after,
          length-replicate {A = ℕ} (wal_align - position r % wal_align) 0,
        ) in
        let bare : Stands crc [] r p last (zeros_from (position r)) = record {
          is = s.is;
          unread_is = whole;
          at = s.at;
          last_is = s.last_is;
          single = s.single;
          index_is = s.index_is;
          crc_is = s.crc_is;
          tail_is = inl refl;
        } in
        let s' =
          Advanced-Stands [] r r' p last r.last_sequence (zeros_from (position r))
            (zeros_from (position r)) [] bare (sym (append-nil (zeros_from (position r)))) after in
        rw (replay_next_again d n r is)
          (end_lem n [] r' (p + length (zeros_from (position r))) r.last_sequence reading s' fewer)
  ]

  -- With records ahead, `om_wal_replay_next` delivers the first of them: padding before it is
  -- skipped, and one round more than bytes are unread is enough.
  pub next_lem :
      (m k : ℕ) (tail : List ℕ) (r : Replay) (p last : ℕ) (bs : List ℕ) (es : List Entry)
      → IsReading d
      → Log d crc p last bs es
      → Stands crc tail r p last bs
      → length (unread r) < m
      → m ≤ k
      → Delivers k tail (replay_next m d r) es
  next_lem zero k tail r p last bs es reading log s fuel within = absurd (omega arith)
  next_lem (suc n) k tail r p last bs es reading (nothing _ _ _ _ no_bytes no_entries) s fuel
        within =
      rw no_entries (
        end_lem (suc n) tail r p last reading (subst (λ l. Stands crc tail r p last l) no_bytes s)
          fuel)
  next_lem (suc n) k tail r p last bs es reading (entry _ _ _ _ e cs fs is es_is good accepted log)
        s fuel within =
      let front = record_bytes crc e.seq e.type e.payload in
      let whole : unread r ≡ record_bytes r.enable_crc32 e.seq e.type e.payload ++ (cs ++ tail) =
        rw (s.crc_is) (s.unread_is ∙ ap (λ l. l ++ tail) is ∙ append_assoc front cs tail) in
      let good_here : IsRecord r.last_sequence e.seq e.type e.payload = rw (s.last_is) good in
      let (round, after) =
        replay_round-record d e.seq e.type e.payload (cs ++ tail) r reading s.is good_here whole
          accepted in
      let r' = (replay_round d r).1 in
      let s' = Advanced-Stands tail r r' p last e.seq bs front cs s is after in
      let fewer : length (unread r') < k = omega (
        arith,
        fuel,
        within,
        Advanced-fewer r r' e.seq front (cs ++ tail)
            (s.unread_is ∙ ap (λ l. l ++ tail) is ∙ append_assoc front cs tail) after,
      ) in
      rw (es_is, replay_next_answer d n r (got e.type e.seq e.payload) round)
        (refl, p + length front, cs, log, s', fewer)
  next_lem (suc n) k tail r p last bs es reading (padding _ _ _ _ cs is wide log) s fuel within =
      let front = zeros_from p in
      let whole : unread r ≡ zeros_from p ++ (cs ++ tail) =
        s.unread_is ∙ ap (λ l. l ++ tail) is ∙ append_assoc front cs tail in
      let here : zeros_from p ≡ zeros_from (position r) = ap zeros_from (sym s.at) in
      let wide_here : 8 ≤ wal_align - position r % wal_align = omega (
        arith,
        wide,
        ap length here,
        length-replicate {A = ℕ} (wal_align - position r % wal_align) 0,
      ) in
      let (round, after) =
        replay_round-padding d (cs ++ tail) r reading s.is
          (whole ∙ ap (λ l. l ++ (cs ++ tail)) here) (inl wide_here) in
      let r' = (replay_round d r).1 in
      let s' =
        Advanced-Stands tail r r' p last last bs front cs s is
          (subst (λ l. Advanced r r' l (cs ++ tail)) s.last_is after) in
      let fewer : length (unread r') < n =
        omega
          (arith, fuel, wide, Advanced-fewer r r' r.last_sequence front (cs ++ tail) whole after) in
      rw (replay_next_again d n r round)
        (next_lem n k tail r' (p + length front) last cs es reading log s' fewer (omega arith))

  -- The calls over a log deliver its records, in order, and then end without an error.
  pub replay_all_lem :
      (n m : ℕ) (tail : List ℕ) (r : Replay) (p last : ℕ) (bs : List ℕ) (es : List Entry)
      → IsReading d
      → Log d crc p last bs es
      → Stands crc tail r p last bs
      → length (unread r) < m
      → length es < n
      → replay_all n m d r ≡ (some ended, es)
  unfolding replay_all
  replay_all_lem zero m tail r p last bs es reading log s fuel calls = absurd (omega arith)
  replay_all_lem (suc n) m tail r p last bs [] reading log s fuel calls =
      let stop : (replay_next m d r).0 ≡ some ended =
        next_lem m m tail r p last bs [] reading log s fuel (omega arith) in
      ground (arith, stop)
  replay_all_lem (suc n) m tail r p last bs (e ∷ es) reading log s fuel calls =
      let (first, q, cs, log', s', fuel') =
        next_lem m m tail r p last bs (e ∷ es) reading log s fuel (omega arith) in
      let r' = (replay_next m d r).1 in
      let ih : replay_all n m d r' ≡ (some ended, es) =
        replay_all_lem n m tail r' q e.seq cs es reading log' s' fuel' (omega arith) in
      let is : replay_all (suc n) m d r ≡ ((replay_all n m d r').0, e ∷ (replay_all n m d r').1) =
        ground (arith, first) in
      rw (is, ih) refl
