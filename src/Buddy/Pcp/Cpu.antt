-- ===== src/Buddy/Pcp/Cpu.antt =====
-- The per-cpu pages of a zone, ulk_pf/page_alloc.c: free_hot_cold_page, drain_zone_pages, what drain_pages does
-- for a zone, and how buffered_rmqueue takes a page.
use my_posts.Prelude.{
  ℕ, ◌+◌, ◌-◌, ◌/◌, ◌^◌, Bool, not, Option, none, some, List, [], ◌∷◌, ◌++◌, ltb, leb, ◌==◌,
  if◌then◌else◌, set,
}
use my_posts.Buddy.{Zone}
use my_posts.Buddy.Bulk.{rmqueue_bulk}
use my_posts.Buddy.Fallback.{movable, set_freepage_migratetype}
use my_posts.Buddy.Pcp.{migrate_pcptypes, free_pcppages_bulk, split_last}

-- `struct per_cpu_pages`; `count` is never negative where `batch` is not more than `high`.
pub record PerCpuPages : Type 0 where
  pub count : ℕ
  pub high : ℕ
  pub batch : ℕ
  pub lists : ℕ → List ℕ

module _ (valid : ℕ → Bool) (zone_id : ℕ → ℕ) where
  -- `to_drain` pages go back to the zone.
  unfoldable pub drain_to : Zone → PerCpuPages → (to_drain : ℕ) → Zone × PerCpuPages
  unfolding free_pcppages_bulk
  drain_to z pcp to_drain =
      let (z', lists, left) = free_pcppages_bulk valid zone_id z to_drain pcp.lists in
      (z', record pcp { lists = lists; count = pcp.count - to_drain })

  -- `drain_zone_pages`
  unfoldable pub drain_zone_pages : Zone → PerCpuPages → Zone × PerCpuPages
  unfolding drain_to
  drain_zone_pages z pcp =
      let to_drain = if leb pcp.batch pcp.count then pcp.batch else pcp.count in
      let drained = drain_to z pcp to_drain in if ltb 0 to_drain then drained else (z, pcp)

  -- `drain_pages`, for one zone.
  unfoldable pub drain_pages : Zone → PerCpuPages → Zone × PerCpuPages
  unfolding drain_to
  drain_pages z pcp =
      let drained = drain_to z pcp pcp.count in if pcp.count == 0 then (z, pcp) else drained

  -- `free_hot_cold_page`; `prepared` is what free_pages_prepare returns.
  unfoldable pub free_hot_cold_page :
      (pageblock_order : ℕ)
      → (prepared cold : Bool) → Zone
      → PerCpuPages
      → (page : ℕ) → Zone × PerCpuPages
  unfolding drain_to
  free_hot_cold_page pageblock_order prepared cold z pcp page =
      let migratetype = z.pageblock_migratetype (page / 2 ^ pageblock_order) in
      let marked = set_freepage_migratetype z page migratetype in
      let kind = if leb migrate_pcptypes migratetype then movable else migratetype in
      let old = pcp.lists kind in
      let pages = if cold then old ++ (page ∷ []) else page ∷ old in
      let filled = record pcp { lists = set pcp.lists kind pages; count = pcp.count + 1 } in
      let drained = drain_to marked filled pcp.batch in
      if not prepared
      then (z, pcp)
      else (if leb pcp.high (pcp.count + 1) then drained else (marked, filled))

-- The page at the head of a list, or a cold one at its tail.
unfoldable pub pick_page :
    Zone → PerCpuPages → (migratetype : ℕ) → (cold : Bool) → Option ℕ × Zone × PerCpuPages
unfolding split_last
pick_page z pcp migratetype cold = elim (pcp.lists migratetype) [
  | [] ↦ (none, z, pcp)
  | p ∷ ps ↦
      let (others, last) = split_last p ps in
      let behind = record pcp { lists = set pcp.lists migratetype others; count = pcp.count - 1 } in
      let front = record pcp { lists = set pcp.lists migratetype ps; count = pcp.count - 1 } in
      if cold then (some last, z, behind) else (some p, z, front)
]

-- The part of `buffered_rmqueue` for order 0.
unfoldable pub from_pcp :
    (valid spans : ℕ → Bool) (disabled : Bool) (pageblock_order : ℕ)
    → Zone
    → PerCpuPages
    → (migratetype : ℕ) → (cold : Bool) → Option ℕ × Zone × PerCpuPages
unfolding rmqueue_bulk pick_page
from_pcp valid spans disabled pageblock_order z pcp migratetype cold =
    let old = pcp.lists migratetype in
    let (z', pages, i) =
      rmqueue_bulk valid spans disabled pageblock_order z 0 pcp.batch old migratetype cold in
    let refilled = record pcp { lists = set pcp.lists migratetype pages; count = pcp.count + i } in
    let (z1, pcp1) = elim old as (λ _. Zone × PerCpuPages) [
      | [] ↦ (z', refilled)
      | _ ∷ _ ↦ (z, pcp)
    ] in
    pick_page z1 pcp1 migratetype cold
