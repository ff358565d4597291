-- ===== src/Slab/Queue.antt =====
-- The intrusive queue utilities of include/openmatch/om_slab.h, on queue `q` of the slab.
pub mod Links
pub mod Refine
pub mod Remove
use veloxmatch.Base.{ℕ, Bool, true, false, not, ◌&&◌, ◌||◌, ◌==◌, if◌then◌else◌}
use veloxmatch.Slab.{Slab, null, in_slab, set_next, set_prev}

-- `om_queue_is_linked`
unfoldable pub is_linked : Slab → ℕ → ℕ → Bool
is_linked s i q = not (s.next q i == null) || not (s.prev q i == null)

-- `om_queue_link_after`
unfoldable pub link_after : Slab → ℕ → ℕ → ℕ → Slab
link_after s before i q =
    let after = s.next q before in
    let placed = set_next (set_next (set_prev s q i before) q i after) q before i in
    if not (after == null) && in_slab s after then set_prev placed q after i else placed

-- `om_queue_link_before`
unfoldable pub link_before : Slab → ℕ → ℕ → ℕ → Slab
link_before s after i q =
    let before = s.prev q after in
    let placed = set_prev (set_prev (set_next s q i after) q i before) q after i in
    if not (before == null) && in_slab s before then set_next placed q before i else placed

-- The slab after the neighbours of `i` have been joined and its own links cleared.
abbrev pub unlinked : Slab → ℕ → ℕ → Slab
unlinked s i q =
    let after = s.next q i in
    let before = s.prev q i in
    let left = if not (before == null) && in_slab s before then set_next s q before after else s in
    let right =
      if not (after == null) && in_slab s after then set_prev left q after before else left in
    set_prev (set_next right q i null) q i null

-- `om_queue_unlink`: was the slot linked, and the slab.
unfoldable pub unlink : Slab → ℕ → ℕ → Bool × Slab
unlink s i q = if not (is_linked s i q) then (false, s) else (true, unlinked s i q)
