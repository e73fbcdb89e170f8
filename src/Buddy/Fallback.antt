-- ===== src/Buddy/Fallback.antt =====
-- Blocks of another migrate type, ulk_pf/page_alloc.c: __rmqueue_fallback and __rmqueue. `spans` is zone_spans_pfn of
-- the zone.
pub mod Moves
pub mod Take
pub mod Search
use my_posts.Prelude.{
  ℕ, zero, suc, ◌+◌, ◌-◌, ◌/◌, ◌%◌, ◌^◌, Bool, true, false, not, ◌||◌, Option, none, some, List, [],
  ◌∷◌, ltb, leb, ◌==◌, if◌then◌else◌, set,
}
use my_posts.Buddy.{Zone, max_order, set_list, list_del, rmv_page_order, expand, rmqueue_smallest}

abbrev pub unmovable : ℕ
unmovable = 0

abbrev pub reclaimable : ℕ
reclaimable = 1

abbrev pub movable : ℕ
movable = 2

abbrev pub reserve : ℕ
reserve = 3

unfoldable pub fallbacks : ℕ → List ℕ
fallbacks zero = reclaimable ∷ movable ∷ reserve ∷ []
fallbacks (suc zero) = unmovable ∷ movable ∷ reserve ∷ []
fallbacks (suc (suc zero)) = reclaimable ∷ unmovable ∷ reserve ∷ []
fallbacks (suc (suc (suc mt))) = reserve ∷ []

-- `list_move` to one of the lists of the page's order.
abbrev pub list_move : Zone → (page order migratetype : ℕ) → Zone
list_move z page order migratetype =
    let unlinked = list_del z page order in
    set_list unlinked order migratetype (page ∷ unlinked.free_list order migratetype)

abbrev pub set_freepage_migratetype : Zone → (page migratetype : ℕ) → Zone
set_freepage_migratetype z page migratetype = record z {
  freepage_migratetype = set z.freepage_migratetype page migratetype;
}

module _ (valid : ℕ → Bool) where
  -- The loop of `move_freepages`; each of at most `rounds` rounds goes on by at least a page.
  unfoldable pub moving :
      (rounds : ℕ) → Zone → (page end_page migratetype pages_moved : ℕ) → Zone × ℕ
  moving zero z page end_page migratetype pages_moved = (z, pages_moved)
  moving (suc rounds) z page end_page migratetype pages_moved =
      let next = moving rounds z (page + 1) end_page migratetype pages_moved in
      if ltb end_page page
      then (z, pages_moved)
      else (if not (valid page) then next else elim (z.order page) [
        | none ↦ next
        | some order ↦
            let moved =
              set_freepage_migratetype (list_move z page order migratetype) page migratetype in
            moving rounds moved (page + 2 ^ order) end_page migratetype (pages_moved + 2 ^ order)
      ])

  unfoldable pub move_freepages : Zone → (start_page end_page migratetype : ℕ) → Zone × ℕ
  unfolding moving
  move_freepages z start_page end_page migratetype =
      moving (end_page + 1 - start_page) z start_page end_page migratetype 0

module _ (disabled : Bool) (pageblock_order : ℕ) where
  -- `disabled` is page_group_by_mobility_disabled.
  abbrev pub set_pageblock_migratetype : Zone → (page migratetype : ℕ) → Zone
  set_pageblock_migratetype z page migratetype =
      let kind = if disabled then unmovable else migratetype in
      record z {
        pageblock_migratetype = set z.pageblock_migratetype (page / 2 ^ pageblock_order) kind;
      }

  -- The loop of `change_pageblock_range`.
  unfoldable pub changing : (nr_pageblocks : ℕ) → Zone → (pageblock_page migratetype : ℕ) → Zone
  changing zero z page migratetype = z
  changing (suc n) z page migratetype =
      changing n (set_pageblock_migratetype z page migratetype) (page + 2 ^ pageblock_order)
        migratetype

  unfoldable pub change_pageblock_range : Zone → (pageblock_page start_order migratetype : ℕ) → Zone
  unfolding changing
  change_pageblock_range z page start_order migratetype =
      changing (2 ^ (start_order - pageblock_order)) z page migratetype

module _ (valid spans : ℕ → Bool) (disabled : Bool) (pageblock_order : ℕ) where
  unfoldable pub move_freepages_block : Zone → (page migratetype : ℕ) → Zone × ℕ
  unfolding move_freepages
  move_freepages_block z page migratetype =
      let start_pfn = page - page % 2 ^ pageblock_order in
      let end_pfn = start_pfn + 2 ^ pageblock_order - 1 in
      let start_page = if spans start_pfn then start_pfn else page in
      let moved = move_freepages valid z start_page end_pfn migratetype in
      if spans end_pfn then moved else (z, 0)

  -- What `__rmqueue_fallback` does with the block of order `order + n` that it has found.
  unfoldable pub take_fallback : Zone → (page order n start_migratetype : ℕ) → Zone
  unfolding move_freepages_block change_pageblock_range
  take_fallback z page order n start_migratetype =
      let current_order = order + n in
      let counted = record z {
        nr_free = set z.nr_free current_order (z.nr_free current_order - 1);
      } in
      let (moved, pages) = move_freepages_block counted page start_migratetype in
      let claimed =
        if leb (2 ^ (pageblock_order - 1)) pages || disabled
        then set_pageblock_migratetype disabled pageblock_order moved page start_migratetype
        else moved in
      let chosen =
        if leb (pageblock_order / 2) current_order || (start_migratetype == reclaimable) || disabled
        then claimed
        else counted in
      let removed = rmv_page_order (list_del chosen page current_order) page in
      let owned =
        if leb pageblock_order current_order
        then change_pageblock_range disabled pageblock_order removed page current_order
            start_migratetype
        else removed in
      expand owned page order n start_migratetype

  -- The inner loop, over the types that are left of `fallbacks`.
  unfoldable pub in_types :
      (types : List ℕ) → Zone → (order n start_migratetype : ℕ) → Option (ℕ × Zone)
  unfolding take_fallback
  in_types [] z order n start_migratetype = none
  in_types (migratetype ∷ types) z order n start_migratetype =
      let rest = in_types types z order n start_migratetype in
      if migratetype == reserve then none else elim (z.free_list (order + n) migratetype) [
        | [] ↦ rest
        | page ∷ _ ↦ some (page, take_fallback z page order n start_migratetype)
      ]

  -- The outer loop, where the `rounds` orders from `order` on are left.
  unfoldable pub fallback_from :
      (rounds : ℕ) → Zone → (order start_migratetype : ℕ) → Option ℕ × Zone
  unfolding fallbacks in_types
  fallback_from zero z order start_migratetype = (none, z)
  fallback_from (suc n) z order start_migratetype =
      let rest = fallback_from n z order start_migratetype in
      elim (in_types (fallbacks start_migratetype) z order n start_migratetype) [
        | none ↦ rest
        | some (page, taken) ↦ (some page, taken)
      ]

  unfoldable pub rmqueue_fallback : Zone → (order start_migratetype : ℕ) → Option ℕ × Zone
  unfolding fallback_from
  rmqueue_fallback z order start_migratetype =
      fallback_from (max_order - order) z order start_migratetype

  -- `__rmqueue`
  unfoldable pub rmqueue : Zone → (order migratetype : ℕ) → Option ℕ × Zone
  unfolding rmqueue_smallest rmqueue_fallback
  rmqueue z order migratetype =
      let (first, z1) = rmqueue_smallest z order migratetype in
      let (second, z2) = rmqueue_fallback z1 order migratetype in
      elim first [
        | some page ↦ (some page, z1)
        | none ↦ if migratetype == reserve then (none, z1) else elim second [
          | some page ↦ (some page, z2)
          | none ↦ rmqueue_smallest z2 order reserve
        ]
      ]
