-- ===== src/Buddy.antt =====
-- The buddy system of a zone, ulk_pf/page_alloc.c: blocks of 2 ^ order pages, free ones on the lists of their
-- order. Pages are named by their frame numbers. CONFIG_DEBUG_PAGEALLOC, and with it guard pages,
-- CONFIG_DEBUG_VM, CONFIG_CMA and CONFIG_MEMORY_ISOLATION are off.
pub mod Pair
pub mod Valid
pub mod Free
pub mod Alloc
pub mod Fallback
pub mod Cycle
pub mod Bulk
pub mod Pcp
pub mod Watermark
mod Tests
use my_posts.Prelude.{
  ℕ, zero, suc, ◌+◌, ◌-◌, ◌*◌, ◌%◌, ◌^◌, Bool, true, false, not, ◌&&◌, Option, none, some, List, [],
  ◌∷◌, ◌++◌, ltb, ◌==◌, if◌then◌else◌, set, del,
}
use Prim.Native.Nat.{bit_and, bit_xor}

abbrev pub max_order : ℕ
max_order = 11

abbrev pub migrate_types : ℕ
migrate_types = 4

-- `struct zone`, with what it knows of its pages. `order` of a page is its page_order, if it has PageBuddy;
-- `free_list` is by order and migrate type; `nr_free` is never more than the number of frames;
-- `pageblock_migratetype` is by pageblock.
pub record Zone : Type 0 where
  pub order : ℕ → Option ℕ
  pub free_list : ℕ → ℕ → List ℕ
  pub nr_free : ℕ → ℕ
  pub nr_free_pages : ℕ
  pub all_unreclaimable : Bool
  pub pages_scanned : ℕ
  pub pageblock_migratetype : ℕ → ℕ
  pub freepage_migratetype : ℕ → ℕ

abbrev pub has_order : Option ℕ → ℕ → Bool
has_order x o = elim x as (λ _. Bool) [ none ↦ false | some k ↦ k == o ]

-- `set_page_order` and `rmv_page_order`.
abbrev pub set_page_order : Zone → (page order : ℕ) → Zone
set_page_order z page order = record z { order = set z.order page (some order) }

abbrev pub rmv_page_order : Zone → ℕ → Zone
rmv_page_order z page = record z { order = set z.order page none }

-- One of the lists changed.
abbrev pub set_list : Zone → (order migratetype : ℕ) → List ℕ → Zone
set_list z order migratetype pages = record z {
  free_list = set z.free_list order (set (z.free_list order) migratetype pages);
}

-- `list_del(&page->lru)` of a page that stands on one of the lists of an order.
abbrev pub list_del : Zone → (page order : ℕ) → Zone
list_del z page order = record z {
  free_list = set z.free_list order (λ migratetype. del page (z.free_list order migratetype));
}

-- `__find_buddy_index`
unfoldable pub find_buddy_index : (page_idx order : ℕ) → ℕ
find_buddy_index page_idx order = bit_xor page_idx (2 ^ order)

-- `page_to_pfn(page) & ((1 << MAX_ORDER) - 1)`
abbrev pub index : ℕ → ℕ
index page = page % 2 ^ max_order

-- `pfn_valid_within` and `page_zone_id`.
module _ (valid : ℕ → Bool) (zone_id : ℕ → ℕ) where
  -- `page_is_buddy`
  unfoldable pub page_is_buddy : Zone → (page buddy order : ℕ) → Bool
  page_is_buddy z page buddy order =
      if not (valid buddy)
      then false
      else (if not (zone_id page == zone_id buddy) then false else has_order (z.order buddy) order)

  -- The loop of `__free_one_page`, which goes on for at most `rounds` orders: the zone, and the block that it ends with.
  unfoldable pub merge : (rounds : ℕ) → Zone → (page page_idx order : ℕ) → Zone × ℕ × ℕ × ℕ
  unfolding find_buddy_index page_is_buddy
  merge zero z page page_idx order = (z, page, page_idx, order)
  merge (suc rounds) z page page_idx order =
      let buddy_idx = find_buddy_index page_idx order in
      let buddy = page + buddy_idx - page_idx in
      let unlinked = list_del z buddy order in
      let counted = record unlinked { nr_free = set z.nr_free order (z.nr_free order - 1) } in
      let combined_idx = bit_and buddy_idx page_idx in
      let rest =
        merge rounds (rmv_page_order counted buddy) (page + combined_idx - page_idx) combined_idx
          (order + 1) in
      if page_is_buddy z page buddy order then rest else (z, page, page_idx, order)

  -- Whether the buddy of the next higher order is free, so that the block goes to the tail of its list.
  unfoldable pub to_tail : Zone → (page page_idx order : ℕ) → Bool
  unfolding find_buddy_index page_is_buddy
  to_tail z page page_idx order =
      let buddy_idx = find_buddy_index page_idx order in
      let combined_idx = bit_and buddy_idx page_idx in
      let higher_page = page + combined_idx - page_idx in
      let higher_idx = find_buddy_index combined_idx (order + 1) in
      let higher_buddy = higher_page + higher_idx - combined_idx in
      ltb order (max_order - 2)
      && valid (page + buddy_idx - page_idx)
      && page_is_buddy z higher_page higher_buddy (order + 1)

  -- What `__free_one_page` does after its loop.
  unfoldable pub put_block : Zone → (page page_idx order migratetype : ℕ) → Zone
  unfolding to_tail
  put_block z page page_idx order migratetype =
      let ordered = set_page_order z page order in
      let old = z.free_list order migratetype in
      let pages = if to_tail ordered page page_idx order then old ++ (page ∷ []) else page ∷ old in
      record (set_list ordered order migratetype pages) {
        nr_free = set z.nr_free order (z.nr_free order + 1);
      }

  -- `__free_one_page`; `broken` says that the page is compound and destroy_compound_page refuses it.
  unfoldable pub free_one : Bool → Zone → (page order migratetype : ℕ) → Zone
  unfolding merge put_block
  free_one broken z page order migratetype =
      let (z', page', page_idx, order') = merge (max_order - 1 - order) z page (index page) order in
      if broken then z else put_block z' page' page_idx order' migratetype

  -- `free_one_page`
  unfoldable pub free_one_page : Bool → Zone → (page order migratetype : ℕ) → Zone
  unfolding free_one
  free_one_page broken z page order migratetype =
      let freed =
        free_one broken (record z { all_unreclaimable = false; pages_scanned = 0 }) page order
          migratetype in
      record freed { nr_free_pages = freed.nr_free_pages + 2 ^ order }

-- `expand`, from `low + n` down to `low`.
unfoldable pub expand : Zone → (page low n migratetype : ℕ) → Zone
expand z page low zero migratetype = z
expand z page low (suc n) migratetype =
    let high = low + n in
    let half = page + 2 ^ high in
    let linked = set_list z high migratetype (half ∷ z.free_list high migratetype) in
    let counted = record linked { nr_free = set z.nr_free high (z.nr_free high + 1) } in
    expand (set_page_order counted half high) page low n migratetype

-- The page at the head of a list, split down to the order that is asked for.
unfoldable pub take_block : Zone → (page low n migratetype : ℕ) → Zone
unfolding expand
take_block z page low n migratetype =
    let high = low + n in
    let removed = rmv_page_order (list_del z page high) page in
    let counted = record removed { nr_free = set z.nr_free high (z.nr_free high - 1) } in
    expand counted page low n migratetype

-- `__rmqueue_smallest`, where `n` orders above `order` have been tried, and `rounds` are left.
unfoldable pub smallest_from : (rounds n : ℕ) → Zone → (order migratetype : ℕ) → Option ℕ × Zone
unfolding take_block
smallest_from zero n z order migratetype = (none, z)
smallest_from (suc rounds) n z order migratetype =
    let rest = smallest_from rounds (n + 1) z order migratetype in
    elim (z.free_list (order + n) migratetype) [
      | [] ↦ rest
      | page ∷ _ ↦ (some page, take_block z page order n migratetype)
    ]

unfoldable pub rmqueue_smallest : Zone → (order migratetype : ℕ) → Option ℕ × Zone
unfolding smallest_from
rmqueue_smallest z order migratetype = smallest_from (max_order - order) 0 z order migratetype
