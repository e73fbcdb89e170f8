-- ===== src/Buddy/Pcp.antt =====
-- Pages of a per-cpu list go back to the zone, ulk_pf/page_alloc.c: free_pcppages_bulk.
pub mod Store
pub mod Return
pub mod Batch
pub mod Drain
pub mod Cpu
pub mod Insert
pub mod HotCold
pub mod Refilled
pub mod Take
use my_posts.Prelude.{
  ℕ, zero, suc, ◌+◌, ◌-◌, Bool, true, false, List, [], ◌∷◌, ◌==◌, if◌then◌else◌, set,
}
use my_posts.Buddy.{Zone, free_one}

abbrev pub migrate_pcptypes : ℕ
migrate_pcptypes = 3

-- The search for a list with pages, which at most three rounds end: the list and `batch_free`.
unfoldable pub next_list :
    (rounds : ℕ) → (lists : ℕ → List ℕ) → (migratetype batch_free : ℕ) → ℕ × ℕ
next_list zero lists migratetype batch_free = (migratetype, batch_free)
next_list (suc rounds) lists migratetype batch_free =
    let next = if migratetype + 1 == migrate_pcptypes then 0 else migratetype + 1 in
    let rest = next_list rounds lists next (batch_free + 1) in
    elim (lists next) [ [] ↦ rest | _ ∷ _ ↦ (next, batch_free + 1) ]

-- `list_del` of the last page: the others, and the page.
unfoldable pub split_last : ℕ → List ℕ → List ℕ × ℕ
split_last p [] = ([], p)
split_last p (q ∷ qs) = let (others, last) = split_last q qs in (p ∷ others, last)

module _ (valid : ℕ → Bool) (zone_id : ℕ → ℕ) where
  -- A page is given to `__free_one_page`, and counted.
  unfoldable pub return_page : Zone → ℕ → Zone
  unfolding free_one
  return_page z page =
      let freed = free_one valid zone_id false z page 0 (z.freepage_migratetype page) in
      record freed { nr_free_pages = freed.nr_free_pages + 1 }

  -- The inner loop, which counts `to_free` and `batch_free` down.
  unfoldable pub free_batch :
      (to_free batch_free : ℕ)
      → Zone
      → (ℕ → List ℕ)
      → (migratetype : ℕ) → Zone × (ℕ → List ℕ) × ℕ × ℕ
  unfolding split_last return_page
  free_batch zero batch_free z lists migratetype = (z, lists, 0, batch_free)
  free_batch (suc n) batch_free z lists migratetype = elim (lists migratetype) [
    | [] ↦ (z, lists, suc n, batch_free)
    | p ∷ ps ↦
        let (others, page) = split_last p ps in
        let z' = return_page z page in
        let lists' = set lists migratetype others in
        let again = free_batch n (batch_free - 1) z' lists' migratetype in
        if n == 0
        then (z', lists', n, batch_free)
        else (if batch_free - 1 == 0
            then (z', lists', n, batch_free - 1)
            else elim others [ [] ↦ (z', lists', n, batch_free - 1) | _ ∷ _ ↦ again ])
  ]

  -- The outer loop. Each round frees a page, so that there are at most as many rounds as pages to free.
  unfoldable pub drain :
      (rounds : ℕ)
      → Zone
      → (ℕ → List ℕ)
      → (to_free migratetype batch_free : ℕ) → Zone × (ℕ → List ℕ) × ℕ
  unfolding next_list free_batch
  drain zero z lists to_free migratetype batch_free = (z, lists, to_free)
  drain (suc rounds) z lists to_free migratetype batch_free =
      let (next, batch) = next_list 3 lists migratetype batch_free in
      let chosen = if batch == migrate_pcptypes then to_free else batch in
      let (z', lists', left, batch') = free_batch to_free chosen z lists next in
      let rest = drain rounds z' lists' left next batch' in
      if to_free == 0 then (z, lists, to_free) else rest

  unfoldable pub free_pcppages_bulk : Zone → (count : ℕ) → (ℕ → List ℕ) → Zone × (ℕ → List ℕ) × ℕ
  unfolding drain
  free_pcppages_bulk z count lists =
      drain count (record z { all_unreclaimable = false; pages_scanned = 0 }) lists count 0 0
