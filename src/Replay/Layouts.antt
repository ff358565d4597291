-- ===== src/Replay/Layouts.antt =====
-- src/om_wal.c: the records that the calls of the writer make, as the reader checks them.
use veloxmatch.Base.{
  ℕ, ◌+◌, ◌^◌, ◌<◌, ◌≡◌, refl, ap, ◌∙◌, Bool, false, List, ◌++◌, length, take, drop, arith, ==_refl,
  Bool-cases, length-append, length-replicate, take-length-append, drop-length-append,
  if◌then◌else◌, replicate, le→ltb-false, inl, inr,
}
use veloxmatch.Wal.{bytes, order_data}
use veloxmatch.Wal.Insert.{Slot, insert_header, insert_data}
use veloxmatch.Replay.{number}
use veloxmatch.Replay.Next.{bad_layout}
use veloxmatch.Replay.Codec.{number-bytes}

length-order_data :
    (order_id now slot product : ℕ) → length (order_data order_id now slot product) ≡ 24
unfolding order_data bytes
length-order_data order_id now slot product = refl

length-insert_header :
    (slot : Slot) (product now : ℕ) → length (insert_header slot product now) ≡ 56
unfolding insert_header bytes
length-insert_header slot product now = refl

sizes_at :
    (slot : Slot) (product now : ℕ) (rest : List ℕ)
    → (take 4 (drop 40 (insert_header slot product now ++ rest)) ≡ bytes 4 (length slot.user_data))
      × (take 4 (drop 44 (insert_header slot product now ++ rest)) ≡ bytes 4 (length slot.aux_data))
unfolding insert_header bytes
sizes_at slot product now rest = (refl, refl)

insert_layout :
    (payload : List ℕ) (user aux : ℕ)
    → number (take 4 (drop 40 payload)) ≡ user
    → number (take 4 (drop 44 payload)) ≡ aux
    → length payload ≡ 56 + user + aux
    → bad_layout 1 payload ≡ false
insert_layout payload user aux user_is aux_is size =
    rw
      (
        user_is,
        aux_is,
        size,
        le→ltb-false (56 + user + aux) 56 (omega arith),
        ==_refl (56 + user + aux),
      )
      refl

insert_data-layout :
    (has_slab : Bool) (slot : Slot) (product now : ℕ)
    → length slot.user_data < 256 ^ 4
    → length slot.aux_data < 256 ^ 4
    → bad_layout 1 (insert_data has_slab slot product now) ≡ false
insert_data-layout has_slab slot product now user_small aux_small =
    let header = insert_header slot product now in
    let aux : List ℕ = if has_slab then slot.aux_data else replicate (length slot.aux_data) 0 in
    let aux_length : length aux ≡ length slot.aux_data = elim (Bool-cases has_slab) [
      | inl with_slab ↦ rw with_slab refl
      | inr alone ↦ rw alone (length-replicate (length slot.aux_data) 0)
    ] in
    let (user_at, aux_at) = sizes_at slot product now (slot.user_data ++ aux) in
    let user_is = number-bytes 4 (length slot.user_data) user_small in
    let aux_is = number-bytes 4 (length slot.aux_data) aux_small in
    let whole : length (header ++ (slot.user_data ++ aux))
        ≡ 56 + length slot.user_data + length slot.aux_data =
      omega (
        arith,
        length-append header (slot.user_data ++ aux),
        length-append slot.user_data aux,
        length-insert_header slot product now,
        aux_length,
      ) in
    insert_layout (insert_data has_slab slot product now) (length slot.user_data)
      (length slot.aux_data) (ap number user_at ∙ user_is) (ap number aux_at ∙ aux_is) whole

order_data-layout :
    (order_id now slot product : ℕ)
    → (bad_layout 2 (order_data order_id now slot product) ≡ false)
      × (bad_layout 5 (order_data order_id now slot product) ≡ false)
      × (bad_layout 6 (order_data order_id now slot product) ≡ false)
unfolding order_data bytes
order_data-layout order_id now slot product = (refl, refl, refl)

-- What an insert record says of the data behind its header, and that data.
insert_data-sizes :
    (has_slab : Bool) (slot : Slot) (product now : ℕ)
    → length slot.user_data < 256 ^ 4
    → length slot.aux_data < 256 ^ 4
    → let record_data = insert_data has_slab slot product now in
      let user = length slot.user_data in
      let aux : List ℕ = if has_slab then slot.aux_data else replicate (length slot.aux_data) 0 in
      (number (take 4 (drop 40 record_data)) ≡ user)
      × (number (take 4 (drop 44 record_data)) ≡ length slot.aux_data)
      × (take user (drop 56 record_data) ≡ slot.user_data)
      × (drop user (drop 56 record_data) ≡ aux)
unfolding insert_header bytes
insert_data-sizes has_slab slot product now user_small aux_small =
    let aux : List ℕ = if has_slab then slot.aux_data else replicate (length slot.aux_data) 0 in
    (
      number-bytes 4 (length slot.user_data) user_small,
      number-bytes 4 (length slot.aux_data) aux_small,
      take-length-append slot.user_data aux,
      drop-length-append slot.user_data aux,
    )

-- The data of a cancel, a deactivation and an activation have the layout that the reader asks of
-- them, and so have those of an insert whose user and aux data are below 4 GB each. The insert
-- notes the size of the user data at 40 and that of the aux data at 44, each in 4 bytes, and from
-- 56 on stand the user data and then the aux data, or as many zeros if the log has no slab.
pub written_layouts :
    (has_slab : Bool) (order : Slot) (order_id slot product now : ℕ)
    → length order.user_data < 256 ^ 4
    → length order.aux_data < 256 ^ 4
    → let record_data = insert_data has_slab order product now in
      let user = length order.user_data in
      let aux : List ℕ = if has_slab then order.aux_data else replicate (length order.aux_data) 0 in
      (bad_layout 1 record_data ≡ false)
      × ((number (take 4 (drop 40 record_data)) ≡ user)
          × (number (take 4 (drop 44 record_data)) ≡ length order.aux_data)
          × (take user (drop 56 record_data) ≡ order.user_data)
          × (drop user (drop 56 record_data) ≡ aux))
      × (bad_layout 2 (order_data order_id now slot product) ≡ false)
      × (bad_layout 5 (order_data order_id now slot product) ≡ false)
      × (bad_layout 6 (order_data order_id now slot product) ≡ false)
written_layouts has_slab order order_id slot product now user_small aux_small =
    let (cancels, deactivates, activates) = order_data-layout order_id now slot product in
    (
      insert_data-layout has_slab order product now user_small aux_small,
      insert_data-sizes has_slab order product now user_small aux_small,
      cancels,
      deactivates,
      activates,
    )
