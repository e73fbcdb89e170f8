-- ===== src/Slob/PageAlloc.antt =====
-- `slob_page_alloc` of ulk_slob/slob.c: first fit in one page.
use my_posts.Prelude.{
  ℕ, zero, suc, ◌+◌, ◌-◌, ◌*◌, ◌/◌, ◌%◌, ◌≤◌, ◌≡◌, Option, none, some, leb, ◌==◌, if◌then◌else◌,
}
use my_posts.Slob.Block.{
  page_units, slob_unit, Ptr, Mem, set_slob, slob_units, slob_next, slob_last,
}

-- The kernel's `ALIGN(x, a)`: the first multiple of `a` from `x` on, for a power of two `a`.
pub record Align : Type 0 where
  pub align : ℕ → ℕ → ℕ
  pub ge : (x a : ℕ) → x ≤ align x a
  pub multiple : (x a : ℕ) → 1 ≤ a → align x a % a ≡ 0
  pub least : (x y a : ℕ) → 1 ≤ a → x ≤ y → y % a ≡ 0 → align x a ≤ y

-- How a scan ends: `slob_page_alloc` returns NULL, or a block with the memory and the page's
-- `freelist` that it leaves.
pub data Scan : Type 0 where
  out_of_fuel : Scan
  null : Scan
  got : Ptr → Mem → Ptr → Scan

-- Make the block in front, or the page's `freelist` if there is none, lead to `next`.
unfoldable pub link : Mem → Option Ptr → Ptr → Ptr → Mem × Ptr
link m none fl next = (m, next)
link m (some prev) fl next = (set_slob m prev (slob_units m prev) next, fl)

-- Take `units` units from the front of `cur`: unlink an exact fit, fragment a larger block.
unfoldable pub carve : Mem → Ptr → Option Ptr → Ptr → ℕ → Scan
unfolding link
carve m fl prev cur units =
    let avail = slob_units m cur in
    let next = slob_next m cur in
    if avail == units
    then (let (m', fl') = link m prev fl next in got cur m' fl')
    else (let (m', fl') = link m prev fl (cur + units) in
        got cur (set_slob m' (cur + units) (avail - units) next) fl')

-- Fragment the head of `cur` so that a block starts at `aligned`.
unfoldable pub split_head : Mem → Ptr → Ptr → Mem
split_head m cur aligned =
    let next = slob_next m cur in
    let delta = aligned - cur in
    set_slob (set_slob m aligned (slob_units m cur - delta) next) cur delta aligned

module _ (K : Align) where
  -- `(slob_t *)ALIGN((unsigned long)cur, align)`, or `cur` where no alignment is asked for.
  abbrev pub align_ptr : Ptr → ℕ → Ptr
  align_ptr cur align = if align == 0 then cur else K.align (cur * slob_unit) align / slob_unit

  -- The loop, from `cur` with the block `prev` in front of it.
  unfoldable pub scan : ℕ → Mem → Ptr → ℕ → ℕ → Option Ptr → Ptr → Scan
  scan zero m fl units align prev cur = out_of_fuel
  scan (suc fuel) m fl units align prev cur =
      let aligned = align_ptr cur align in
      let delta = aligned - cur in
      let rest = scan fuel m fl units align (some cur) (slob_next m cur) in
      if leb (units + delta) (slob_units m cur)
      then (if delta == 0
          then carve m fl prev cur units
          else carve (split_head m cur aligned) fl (some cur) aligned units)
      else (if slob_last m cur then null else rest)

  -- A page has at most `page_units` blocks.
  unfoldable pub page_scan : Mem → Ptr → ℕ → ℕ → Scan
  page_scan m fl units align = scan (page_units + 1) m fl units align none fl
