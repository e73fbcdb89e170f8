-- ===== src/Slob/PageFree.antt =====
-- The reinsertion of a block into a partially free page, in `slob_free` of ulk_slob/slob.c.
pub mod Refine
use my_posts.Prelude.{
  ℕ, zero, suc, ◌+◌, ◌<◌, ◌&&◌, not, Option, none, some, ltb, ◌==◌, if◌then◌else◌,
}
use my_posts.Slob.Block.{page_units, Ptr, Mem, set_slob, slob_units, slob_next, slob_last}

-- `b < sp->freelist`: the block becomes the first, together with the old first block if they touch.
unfoldable pub free_front : Mem → Ptr → Ptr → ℕ → Mem × Ptr
free_front m fl b units =
    if b + units == fl
    then (set_slob m b (units + slob_units m fl) (slob_next m fl), b)
    else (set_slob m b units fl, b)

-- Encode `b`, together with `next` if they touch.
unfoldable pub join_next : Mem → Ptr → Ptr → Ptr → ℕ → Mem
join_next m prev next b units =
    if not (slob_last m prev) && (b + units == next)
    then set_slob m b (units + slob_units m next) (slob_next m next)
    else set_slob m b units next

-- Link `b` behind `prev`, or make one block of them if they touch.
unfoldable pub join_prev : Mem → Ptr → Ptr → Mem
join_prev m prev b =
    if prev + slob_units m prev == b
    then set_slob m prev (slob_units m b + slob_units m prev) (slob_next m b)
    else set_slob m prev (slob_units m prev) b

-- Find the reinsertion point behind `prev` and link the block in.
unfoldable pub free_behind : ℕ → Mem → Ptr → Ptr → ℕ → Option Mem
free_behind zero m prev b units = none
free_behind (suc fuel) m prev b units =
    let next = slob_next m prev in
    let rest = free_behind fuel m next b units in
    if ltb next b then rest else some (join_prev (join_next m prev next b units) prev b)

-- The memory and the page's `freelist` after the block is freed; `none` is out of fuel. A page has
-- at most `page_units` blocks.
unfoldable pub page_free : Mem → Ptr → Ptr → ℕ → Option (Mem × Ptr)
page_free m fl b units =
    let behind : Option (Mem × Ptr) = elim (free_behind (page_units + 1) m fl b units) [
      | none ↦ none
      | some m' ↦ some (m', fl)
    ] in
    if ltb b fl then some (free_front m fl b units) else behind
