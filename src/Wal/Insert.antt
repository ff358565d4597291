-- ===== src/Wal/Insert.antt =====
-- src/om_wal.c: `om_wal_insert`. The slot, and the data behind it in both slabs, are arguments.
use veloxmatch.Base.{ℕ, Bool, List, ◌++◌, length, replicate, if◌then◌else◌}
use veloxmatch.Wal.{Wal, Grants, bytes, append}

-- The fields of a slot that the log keeps, with `user_data` from `om_slot_get_data` and `aux_data`
-- from `om_slot_get_aux_data`, as long as the configuration says.
pub record Slot : Type 0 where
  pub order_id : ℕ
  pub price : ℕ
  pub volume : ℕ
  pub volume_remain : ℕ
  pub org : ℕ
  pub flags : ℕ
  pub user_data : List ℕ
  pub aux_data : List ℕ

-- `OmWalInsert`
unfoldable pub insert_header : Slot → ℕ → ℕ → List ℕ
insert_header slot product_id now =
    bytes 8 slot.order_id
    ++ bytes 8 slot.price
    ++ bytes 8 slot.volume
    ++ bytes 8 slot.volume_remain
    ++ bytes 2 slot.org
    ++ bytes 2 slot.flags
    ++ bytes 2 product_id
    ++ bytes 2 0
    ++ bytes 4 (length slot.user_data)
    ++ bytes 4 (length slot.aux_data)
    ++ bytes 8 now

-- The header and the data; zeros for the aux data if the log has no slab.
abbrev pub insert_data : Bool → Slot → ℕ → ℕ → List ℕ
insert_data has_slab slot product_id now =
    insert_header slot product_id now
    ++ (slot.user_data ++ (if has_slab then slot.aux_data else replicate (length slot.aux_data) 0))

-- `om_wal_insert`
unfoldable pub insert : Grants → Wal → Bool → Slot → ℕ → ℕ → ℕ × Wal
insert g w has_slab slot product_id now = append g w 1 (insert_data has_slab slot product_id now)
