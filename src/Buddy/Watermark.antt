-- ===== src/Buddy/Watermark.antt =====
-- Whether enough pages are free for an allocation, ulk_pf/page_alloc.c: __zone_watermark_ok. A long has 64 bits.
pub mod Enough
use my_posts.Prelude.{ℕ, zero, suc, ◌+◌, ◌-◌, ◌*◌, ◌/◌, ◌^◌, Bool, true, false, ltb, if◌then◌else◌}
use my_posts.Prelude.Int.{ℤ, pos, negsuc, ◌+ℤ◌, ◌-ℤ◌, ltb_ℤ, quot}
use my_posts.Buddy.{Zone}

-- The long that an unsigned long is converted to.
unfoldable pub to_long : ℕ → ℤ
to_long n = if ltb n (2 ^ 63) then pos n else negsuc (2 ^ 64 - 1 - n)

-- `min >>= min_free_order_shift`
unfoldable pub shifted : ℤ → ℕ → ℤ
shifted (pos n) s = pos (n / 2 ^ s)
shifted (negsuc n) s = negsuc (n / 2 ^ s)

-- The loop, from the order `o` on.
unfoldable pub orders_ok :
    (rounds o : ℕ) → Zone → (min_free_order_shift : ℕ) → (free_pages min : ℤ) → Bool
unfolding shifted
orders_ok zero o z min_free_order_shift free_pages min = true
orders_ok (suc rounds) o z min_free_order_shift free_pages min =
    let left = free_pages -ℤ pos (z.nr_free o * 2 ^ o) in
    let fewer = shifted min min_free_order_shift in
    let rest = orders_ok rounds (o + 1) z min_free_order_shift left fewer in
    if ltb_ℤ fewer left then rest else false

-- `__zone_watermark_ok`; `high` and `harder` are the flags ALLOC_HIGH and ALLOC_HARDER, `mark` and `lowmem_reserve`
-- unsigned longs.
unfoldable pub watermark_ok :
    Zone
    → (order mark lowmem_reserve : ℕ) → (high harder : Bool) → (min_free_order_shift : ℕ)
    → (free_pages : ℤ) → Bool
unfolding to_long orders_ok
watermark_ok z order mark lowmem_reserve high harder min_free_order_shift free_pages =
    let left = free_pages -ℤ pos (2 ^ order - 1) in
    let all = to_long mark in
    let high_min = if high then all -ℤ quot all 2 else all in
    let min = if harder then high_min -ℤ quot high_min 4 else high_min in
    let rest = orders_ok order 0 z min_free_order_shift left min in
    if ltb_ℤ (min +ℤ to_long lowmem_reserve) left then rest else false

-- `zone_watermark_ok`
unfoldable pub zone_watermark_ok :
    Zone
    → (order mark lowmem_reserve : ℕ) → (high harder : Bool) → (min_free_order_shift : ℕ) → Bool
unfolding watermark_ok
zone_watermark_ok z order mark lowmem_reserve high harder min_free_order_shift =
    watermark_ok z order mark lowmem_reserve high harder min_free_order_shift (pos z.nr_free_pages)
