-- ===== src/Replay/Stream.antt =====
-- src/om_wal.c: the calls of `om_wal_replay_next` over a whole file.
use veloxmatch.Base.{
  ℕ, zero, suc, ◌+◌, ◌-◌, ◌%◌, ◌≤◌, ◌≡◌, ap, ◌∙◌, subst, Bool, false, ◌&&◌, Option, none, some,
  List, [], ◌∷◌, ◌++◌, length, arith, leb, replicate, length-append, append_assoc,
}
use veloxmatch.Wal.{record_bytes, wal_align}
use veloxmatch.Replay.{Disk, Replay, Answer, got, ended, failed}
use veloxmatch.Replay.Next.{replay_next}
use veloxmatch.Replay.Turn.{IsRecord}

-- A record of the log.
pub record Entry : Type 0 where
  pub seq : ℕ
  pub type : ℕ
  pub payload : List ℕ

-- The zeros that fill the block in which `position` lies.
abbrev pub zeros_from : ℕ → List ℕ
zeros_from p = replicate (wal_align - p % wal_align) 0

abbrev pub last_of : ℕ → List Entry → ℕ
last_of last [] = last
last_of last (e ∷ es) = last_of e.seq es

-- `om_wal_replay_next` until it does not deliver a record: the last answer, and the records.
unfoldable pub replay_all : ℕ → ℕ → Disk → Replay → Option Answer × List Entry
replay_all zero m d r = (none, [])
replay_all (suc n) m d r = elim (replay_next m d r).0 [
  | none ↦ (none, [])
  | some ended ↦ (some ended, [])
  | some (failed e) ↦ (some (failed e), [])
  | some (got type seq payload) ↦
      let (result, es) = replay_all n m d (replay_next m d r).1 in
      (result, record { seq = seq; type = type; payload = payload } ∷ es)
]

module _ (d : Disk) (crc : Bool) where
  -- Bytes from a position of a file on that are records, one numbered after the other, and between
  -- them zeros to the end of a block, at least eight.
  pub data Log : ℕ → ℕ → List ℕ → List Entry → Type 0 where
    nothing : (p last : ℕ) (bs : List ℕ) (es : List Entry) → bs ≡ [] → es ≡ [] → Log p last bs es
    entry :
        (p last : ℕ) (bs : List ℕ) (es : List Entry) (e : Entry) (cs : List ℕ) (fs : List Entry)
        → bs ≡ record_bytes crc e.seq e.type e.payload ++ cs
        → es ≡ e ∷ fs
        → IsRecord last e.seq e.type e.payload
        → (leb 128 e.type && d.handler e.type e.payload) ≡ false
        → Log (p + length (record_bytes crc e.seq e.type e.payload)) e.seq cs fs
        → Log p last bs es
    padding :
        (p last : ℕ) (bs : List ℕ) (es : List Entry) (cs : List ℕ)
        → bs ≡ zeros_from p ++ cs
        → 8 ≤ length (zeros_from p)
        → Log (p + length (zeros_from p)) last cs es
        → Log p last bs es

  -- A log can be continued behind its last record.
  pub Log-append :
      (p last : ℕ) (bs : List ℕ) (es : List Entry) (cs : List ℕ) (fs : List Entry)
      → Log p last bs es
      → Log (p + length bs) (last_of last es) cs fs
      → Log p last (bs ++ cs) (es ++ fs)
  Log-append p last bs es cs fs (nothing _ _ _ _ no_bytes no_entries) more =
      let here : p + length bs ≡ p = omega (arith, ap length no_bytes) in
      rw (no_bytes, no_entries) (rw (here, no_entries) at more)
  Log-append p last bs es cs fs (entry _ _ _ _ e ds gs is es_is good accepted log) more =
      let front = record_bytes crc e.seq e.type e.payload in
      let here : p + length bs ≡ p + length front + length ds =
        omega (arith, ap length is, length-append front ds) in
      let onward : Log (p + length front + length ds) (last_of e.seq gs) cs fs =
        subst (λ q. Log q (last_of e.seq gs) cs fs) here
          (subst (λ l. Log (p + length bs) (last_of last l) cs fs) es_is more) in
      entry p last (bs ++ cs) (es ++ fs) e (ds ++ cs) (gs ++ fs)
        (ap (λ l. l ++ cs) is ∙ append_assoc front ds cs) (ap (λ l. l ++ fs) es_is) good accepted
        (Log-append (p + length front) e.seq ds gs cs fs log onward)
  Log-append p last bs es cs fs (padding _ _ _ _ ds is wide log) more =
      let front = zeros_from p in
      let here : p + length bs ≡ p + length front + length ds =
        omega (arith, ap length is, length-append front ds) in
      padding p last (bs ++ cs) (es ++ fs) (ds ++ cs)
        (ap (λ l. l ++ cs) is ∙ append_assoc front ds cs) wide
        (Log-append (p + length front) last ds es cs fs log
          (subst (λ q. Log q (last_of last es) cs fs) here more))
