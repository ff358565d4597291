-- ===== src/Recovery/Restored.antt =====
-- src/orderbook.c and src/om_wal.c: what the recovery makes of the record that `om_wal_insert` wrote.
use veloxmatch.Base.{ℕ, ◌^◌, ◌<◌, ◌++◌, length, drop}
use veloxmatch.Slab.{Slot}
use veloxmatch.Wal.Insert

-- The widths of the fields of `OmWalInsert`.
pub record Fits (order : Insert.Slot) (product : ℕ) : Type 0 where
  pub order_id : order.order_id < 256 ^ 4
  pub price : order.price < 256 ^ 8
  pub volume : order.volume < 256 ^ 8
  pub volume_remain : order.volume_remain < 256 ^ 8
  pub org : order.org < 256 ^ 2
  pub flags : order.flags < 256 ^ 2
  pub product_id : product < 256 ^ 2
  pub user_data : length order.user_data < 256 ^ 4

-- The order as the log has it, in the slot that the recovery puts it into.
abbrev pub rebuilt : Insert.Slot → Slot → Slot
rebuilt order slot = record {
  price = order.price;
  volume = order.volume;
  volume_remain = order.volume_remain;
  org = order.org;
  flags = order.flags;
  order_id = order.order_id;
  payload = order.user_data ++ drop (length order.user_data) slot.payload;
}
