-- ===== src/Buddy/Bulk.antt =====
-- A batch of blocks for a per-cpu list, ulk_pf/page_alloc.c: rmqueue_bulk.
pub mod Taken
pub mod Left
pub mod Refill
use my_posts.Prelude.{
  ℕ, zero, suc, ◌+◌, ◌-◌, ◌*◌, ◌^◌, Bool, true, false, Option, none, some, List, [], ◌∷◌, ◌++◌,
  if◌then◌else◌,
}
use my_posts.Buddy.{Zone}
use my_posts.Buddy.Fallback.{rmqueue, set_freepage_migratetype}

module _ (valid spans : ℕ → Bool) (disabled : Bool) (pageblock_order : ℕ) where
  -- The loop of `rmqueue_bulk`: the zone, the list, and the number of blocks. The pages in front of the place where the
  -- next one is added are `before`.
  unfoldable pub bulk :
      (count : ℕ)
      → Zone
      → (order migratetype : ℕ) → (cold : Bool) → (before after : List ℕ) → Zone × List ℕ × ℕ
  unfolding rmqueue
  bulk zero z order migratetype cold before after = (z, before ++ after, 0)
  bulk (suc n) z order migratetype cold before after =
      let (page, z1) = rmqueue valid spans disabled pageblock_order z order migratetype in
      elim page [
        | none ↦ (z1, before ++ after, 0)
        | some page ↦
            let marked = set_freepage_migratetype z1 page migratetype in
            let behind = bulk n marked order migratetype cold (before ++ (page ∷ [])) after in
            let front = bulk n marked order migratetype cold before (page ∷ after) in
            let (z', list, i) = if cold then front else behind in (z', list, i + 1)
      ]

  -- `rmqueue_bulk`
  unfoldable pub rmqueue_bulk :
      Zone
      → (order count : ℕ) → (list : List ℕ) → (migratetype : ℕ) → (cold : Bool) → Zone × List ℕ × ℕ
  unfolding bulk
  rmqueue_bulk z order count list migratetype cold =
      let before = if cold then list else [] in
      let after = if cold then [] else list in
      let (z', pages, i) = bulk count z order migratetype cold before after in
      (record z' { nr_free_pages = z'.nr_free_pages - i * 2 ^ order }, pages, i)
