-- ===== src/Replay/Codec.antt =====
-- include/openmatch/om_wal.h and src/om_wal.c: the bytes that the writer puts into a record, as
-- the reader takes them apart.
use veloxmatch.Base.{
  ℕ, zero, suc, ◌+◌, ◌*◌, ◌/◌, ◌%◌, ◌^◌, ◌<◌, ◌≡◌, refl, ap, sym, ◌∙◌, Bool, true, false, List, [],
  ◌∷◌, ◌++◌, length, take, drop, arith, ◌==◌, Bool-cases, inl, inr, append_assoc, append-nil,
  length-append, take-length-append, drop-length-append, bit_xor, if◌then◌else◌,
}
use veloxmatch.Base.Bits.{xor-bound}
use veloxmatch.Wal.{bytes, record_bytes, pack_header, crc32_compute, crc32_loop, crc32_bits}
use veloxmatch.Wal.Writer.{length-bytes}
use veloxmatch.Replay.{number}

-- A number of `n` bytes is read back.
pub number-bytes : (n k : ℕ) → k < 256 ^ n → number (bytes n k) ≡ k
unfolding number bytes
number-bytes zero k small = omega arith
number-bytes (suc n) k small =
    let power : 256 ^ suc n ≡ 256 * 256 ^ n = omega arith in
    omega (arith, number-bytes n (k / 256) (omega (arith, power, small)))

crc32_bits-bound : (n crc : ℕ) → crc < 2 ^ 32 → crc32_bits n crc < 2 ^ 32
unfolding crc32_bits
crc32_bits-bound zero crc h = h
crc32_bits-bound (suc n) crc h =
    crc32_bits-bound n (if crc % 2 == 1 then bit_xor (crc / 2) 0xEDB88320 else crc / 2)
      (elim (Bool-cases (crc % 2 == 1)) [
        | inl odd ↦ rw odd (xor-bound 32 (crc / 2) 0xEDB88320 (omega arith) (omega arith))
        | inr even ↦ rw even (omega arith)
      ])

crc32_loop-bound : (payload : List ℕ) (crc : ℕ) → crc < 2 ^ 32 → crc32_loop payload crc < 2 ^ 32
unfolding crc32_loop
crc32_loop-bound [] crc h = h
crc32_loop-bound (b ∷ payload) crc h =
    let entry = crc32_bits 8 (bit_xor crc b % 256) in
    let bounded : entry < 2 ^ 32 = crc32_bits-bound 8 (bit_xor crc b % 256) (omega arith) in
    crc32_loop-bound payload (bit_xor entry (crc / 256))
      (xor-bound 32 entry (crc / 256) bounded (omega arith))

-- The checksum has 32 bits.
crc32_compute-bound : (payload : List ℕ) → crc32_compute payload < 2 ^ 32
unfolding crc32_compute
crc32_compute-bound payload =
    xor-bound 32 (crc32_loop payload 0xFFFFFFFF) 0xFFFFFFFF
      (crc32_loop-bound payload 0xFFFFFFFF (omega arith)) (omega arith)

-- The header and the data of a record, and the bytes of its checksum.
abbrev pub body : ℕ → ℕ → List ℕ → List ℕ
body seq type payload = bytes 8 (pack_header seq type (length payload)) ++ payload

abbrev pub checksum : Bool → ℕ → ℕ → List ℕ → List ℕ
checksum crc seq type payload = if crc then bytes 4 (crc32_compute (body seq type payload)) else []

pub length-body :
    (seq type : ℕ) (payload : List ℕ) → length (body seq type payload) ≡ 8 + length payload
length-body seq type payload =
    let packed = pack_header seq type (length payload) in
    length-append (bytes 8 packed) payload ∙ ap (λ n. n + length payload) (length-bytes 8 packed)

pub record_bytes_parts :
    (crc : Bool) (seq type : ℕ) (payload : List ℕ)
    → record_bytes crc seq type payload ≡ body seq type payload ++ checksum crc seq type payload
unfolding record_bytes
record_bytes_parts true seq type payload = refl
record_bytes_parts false seq type payload = sym (append-nil (body seq type payload))

pub take-front : (n : ℕ) (xs ys : List ℕ) → length xs ≡ n → take n (xs ++ ys) ≡ xs
take-front n xs ys e = rw (sym e) (take-length-append xs ys)

pub drop-front : (n : ℕ) (xs ys : List ℕ) → length xs ≡ n → drop n (xs ++ ys) ≡ ys
drop-front n xs ys e = rw (sym e) (drop-length-append xs ys)

-- What the reader takes from bytes that begin with a record.
pub record Parts (crc : Bool) (seq type : ℕ) (payload ws : List ℕ) : Type 0 where
  pub packed : number (take 8 ws) ≡ pack_header seq type (length payload)
  pub data_bytes : take (length payload) (drop 8 ws) ≡ payload
  pub covered : take (8 + length payload) ws ≡ body seq type payload
  pub stored :
      crc ≡ true
      → number (take 4 (drop (8 + length payload) ws)) ≡ crc32_compute (body seq type payload)

pub record_bytes-Parts :
    (crc : Bool) (seq type : ℕ) (payload ws : List ℕ)
    → Parts crc seq type payload (record_bytes crc seq type payload ++ ws)
record_bytes-Parts crc seq type payload ws =
    let packed = pack_header seq type (length payload) in
    let header = bytes 8 packed in
    let front = body seq type payload in
    let sum = crc32_compute front in
    let check = checksum crc seq type payload in
    let by_body : record_bytes crc seq type payload ++ ws ≡ front ++ (check ++ ws) =
      ap (λ l. l ++ ws) (record_bytes_parts crc seq type payload) ∙ append_assoc front check ws in
    let by_header : record_bytes crc seq type payload ++ ws ≡ header ++ (payload ++ (check ++ ws)) =
      by_body ∙ append_assoc header payload (check ++ ws) in
    record {
      packed =
          rw (by_header, take-front 8 header (payload ++ (check ++ ws)) (length-bytes 8 packed))
            (number-bytes 8 packed (omega arith));
      data_bytes =
          rw (by_header, drop-front 8 header (payload ++ (check ++ ws)) (length-bytes 8 packed))
            (take-length-append payload (check ++ ws));
      covered =
          rw by_body
            (take-front (8 + length payload) front (check ++ ws) (length-body seq type payload));
      stored = λ on.
          let four : check ≡ bytes 4 sum = rw on refl in
          rw
            (
              by_body,
              drop-front (8 + length payload) front (check ++ ws) (length-body seq type payload),
              four,
              take-front 4 (bytes 4 sum) ws (length-bytes 4 sum),
            )
            (number-bytes 4 sum (crc32_compute-bound front));
    }

pub length-record :
    (crc : Bool) (seq type : ℕ) (payload : List ℕ)
    → length (record_bytes crc seq type payload) ≡ 8 + length payload + (if crc then 4 else 0)
length-record true seq type payload =
    let front = body seq type payload in
    let sum = crc32_compute front in
    omega (
      arith,
      ap length (record_bytes_parts true seq type payload),
      length-append front (bytes 4 sum),
      length-body seq type payload,
      length-bytes 4 sum,
    )
length-record false seq type payload = omega (
  arith,
  ap length (record_bytes_parts false seq type payload),
  length-append (body seq type payload) [],
  length-body seq type payload,
)
