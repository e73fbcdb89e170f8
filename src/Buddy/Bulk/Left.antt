-- ===== src/Buddy/Bulk/Left.antt =====
-- The buddy system leaves nr_free_pages to its callers, and gives pages only types that there are.
use my_posts.Prelude.{
  ℕ, zero, suc, ◌+◌, ◌-◌, ◌/◌, ◌%◌, ◌^◌, ◌<◌, ◌≡◌, refl, ◌∙◌, Bool, not, ◌||◌, Option, none, some,
  List, [], ◌∷◌, ◌++◌, ◌==◌, ltb, leb, set, if◌then◌else◌, if_both, List_both, Option_both,
}
use my_posts.Buddy.{
  Zone, max_order, migrate_types, expand, take_block, smallest_from, rmqueue_smallest,
  rmv_page_order, list_del,
}
use my_posts.Buddy.Fallback.{
  reserve, reclaimable, fallbacks, list_move, set_freepage_migratetype, set_pageblock_migratetype,
  moving, move_freepages, move_freepages_block, changing, change_pageblock_range, take_fallback,
  in_types, fallback_from, rmqueue_fallback, rmqueue,
}
use my_posts.Buddy.Bulk.{bulk}

-- A page that has a type for the per-cpu lists, one that there is, keeps having one.
unfoldable pub KeepTypes : Zone → Zone → Type 0
KeepTypes z r =
    (p : ℕ) → z.freepage_migratetype p < migrate_types → r.freepage_migratetype p < migrate_types

-- The count is the same in both zones, and pages have types after some have got the type `mt`.
unfoldable pub IsKept : ℕ → Zone → Zone → Type 0
IsKept mt z r = (r.nr_free_pages ≡ z.nr_free_pages) × (mt < migrate_types → KeepTypes z r)

self-IsKept : (mt : ℕ) (z : Zone) → IsKept mt z z
unfolding IsKept KeepTypes
self-IsKept mt z = (refl, λ _ p t. t)

trans-IsKept : (mt : ℕ) (z y r : Zone) → IsKept mt z y → IsKept mt y r → IsKept mt z r
unfolding IsKept KeepTypes
trans-IsKept mt z y r a b = (b.0 ∙ a.0, λ lt p t. b.1 lt p (a.1 lt p t))

marked-IsKept : (mt : ℕ) (z : Zone) (p : ℕ) → IsKept mt z (set_freepage_migratetype z p mt)
unfolding IsKept KeepTypes
marked-IsKept mt z p =
    (refl, λ lt q t. if_both (λ k. k < migrate_types) (q == p) mt (z.freepage_migratetype q) lt t)

expand-IsKept : (kind n : ℕ) (z : Zone) (p o mt : ℕ) → IsKept kind z (expand z p o n mt)
unfolding expand IsKept KeepTypes
expand-IsKept kind zero z p o mt = self-IsKept kind z
expand-IsKept kind (suc n) z p o mt = expand-IsKept kind n _ p o mt

smallest_from-IsKept :
    (kind rounds n : ℕ) (z : Zone) (o mt : ℕ) → IsKept kind z (smallest_from rounds n z o mt).1
unfolding smallest_from take_block IsKept KeepTypes
smallest_from-IsKept kind zero n z o mt = self-IsKept kind z
smallest_from-IsKept kind (suc rounds) n z o mt =
    List_both (λ t. IsKept kind z t.1) (z.free_list (o + n) mt)
      (smallest_from rounds (n + 1) z o mt) (λ p _. (some p, take_block z p o n mt))
      (smallest_from-IsKept kind rounds (n + 1) z o mt) (λ p _. expand-IsKept kind n _ p o mt)

changing-IsKept :
    (kind : ℕ) (disabled : Bool) (pageblock_order n : ℕ) (z : Zone) (p mt : ℕ)
    → IsKept kind z (changing disabled pageblock_order n z p mt)
unfolding changing IsKept KeepTypes
changing-IsKept kind disabled pageblock_order zero z p mt = self-IsKept kind z
changing-IsKept kind disabled pageblock_order (suc n) z p mt =
    changing-IsKept kind disabled pageblock_order n _ _ mt

moving-IsKept :
    (valid : ℕ → Bool) (rounds : ℕ) (z : Zone) (p end mt moved : ℕ)
    → IsKept mt z (moving valid rounds z p end mt moved).0
unfolding moving IsKept KeepTypes
moving-IsKept valid zero z p end mt moved = self-IsKept mt z
moving-IsKept valid (suc rounds) z p end mt moved =
    let skip = moving valid rounds z (p + 1) end mt moved in
    let move = λ (k : ℕ).
      moving valid rounds (set_freepage_migratetype (list_move z p k mt) p mt) (p + 2 ^ k) end mt
        (moved + 2 ^ k) in
    let kept = moving-IsKept valid rounds z (p + 1) end mt moved in
    let found =
      Option_both (λ t. IsKept mt z t.0) (z.order p) skip move kept
        (λ k.
          let there = set_freepage_migratetype (list_move z p k mt) p mt in
          trans-IsKept mt z there (move k).0 (marked-IsKept mt (list_move z p k mt) p)
            (moving-IsKept valid rounds there (p + 2 ^ k) end mt (moved + 2 ^ k))) in
    let seen = elim (z.order p) as (λ _. Zone × ℕ) [ none ↦ skip | some k ↦ move k ] in
    if_both (λ (t : Zone × ℕ). IsKept mt z t.0) (ltb end p) (z, moved)
      (if not (valid p) then skip else seen) (self-IsKept mt z)
      (if_both (λ (t : Zone × ℕ). IsKept mt z t.0) (not (valid p)) skip seen kept found)

module _ (valid spans : ℕ → Bool) (disabled : Bool) (pageblock_order : ℕ) where
  move_freepages_block-IsKept :
      (z : Zone) (p mt : ℕ)
      → IsKept mt z (move_freepages_block valid spans disabled pageblock_order z p mt).0
  unfolding move_freepages_block move_freepages
  move_freepages_block-IsKept z p mt =
      let start = p - p % 2 ^ pageblock_order in
      let end = start + 2 ^ pageblock_order - 1 in
      let first = if spans start then start else p in
      if_both (λ (t : Zone × ℕ). IsKept mt z t.0) (spans end) (move_freepages valid z first end mt)
        (z, 0) (moving-IsKept valid (end + 1 - first) z first end mt 0) (self-IsKept mt z)

  take_fallback-IsKept :
      (z : Zone) (p o n start : ℕ)
      → IsKept start z (take_fallback valid spans disabled pageblock_order z p o n start)
  unfolding take_fallback change_pageblock_range IsKept KeepTypes
  take_fallback-IsKept z p o n start =
      let counted = record z { nr_free = set z.nr_free (o + n) (z.nr_free (o + n) - 1) } in
      let (moved, pages) =
        move_freepages_block valid spans disabled pageblock_order counted p start in
      let over = leb (2 ^ (pageblock_order - 1)) pages || disabled in
      let claimed =
        if over then set_pageblock_migratetype disabled pageblock_order moved p start else moved in
      let wide = leb (pageblock_order / 2) (o + n) || (start == reclaimable) || disabled in
      let chosen = if wide then claimed else counted in
      let removed = rmv_page_order (list_del chosen p (o + n)) p in
      let m = move_freepages_block-IsKept counted p start in
      let kept : IsKept start z removed =
        if_both (IsKept start z) wide claimed counted (if_both (IsKept start z) over _ moved m m)
          (self-IsKept start z) in
      let owned =
        if leb pageblock_order (o + n)
        then change_pageblock_range disabled pageblock_order removed p (o + n) start
        else removed in
      let changed =
        changing-IsKept start disabled pageblock_order (2 ^ (o + n - pageblock_order)) removed p
          start in
      trans-IsKept start z owned (expand owned p o n start)
        (if_both (IsKept start z) (leb pageblock_order (o + n)) _ removed
          (trans-IsKept start z removed
            (changing disabled pageblock_order (2 ^ (o + n - pageblock_order)) removed p start) kept
            changed)
          kept)
        (expand-IsKept start n owned p o start)

  -- Of what a search may return.
  AllKept : ℕ → Zone → Option (ℕ × Zone) → Type 0
  AllKept start z none = Unit
  AllKept start z (some (p, r)) = IsKept start z r

  in_types-AllKept :
      (types : List ℕ) (z : Zone) (o n start : ℕ)
      → AllKept start z (in_types valid spans disabled pageblock_order types z o n start)
  unfolding in_types AllKept
  in_types-AllKept [] z o n start = _
  in_types-AllKept (x ∷ xs) z o n start =
      let rest = in_types valid spans disabled pageblock_order xs z o n start in
      let take = λ (p : ℕ) (_ : List ℕ).
        some (p, take_fallback valid spans disabled pageblock_order z p o n start) in
      if_both (AllKept start z) (x == reserve) none _ _ (
        List_both (AllKept start z) (z.free_list (o + n) x) rest take
          (in_types-AllKept xs z o n start) (λ p _. take_fallback-IsKept z p o n start))

  pick-IsKept :
      (start : ℕ) (z : Zone) (r : Option (ℕ × Zone)) (rest : Option ℕ × Zone)
      → AllKept start z r
      → IsKept start z rest.1
      → IsKept start z
          (elim r as (λ _. Option ℕ × Zone) [ none ↦ rest | some (p, taken) ↦ (some p, taken) ]).1
  unfolding AllKept
  pick-IsKept start z none rest a b = b
  pick-IsKept start z (some (p, r)) rest a b = a

  fallback_from-IsKept :
      (rounds : ℕ) (z : Zone) (o start : ℕ)
      → IsKept start z (fallback_from valid spans disabled pageblock_order rounds z o start).1
  unfolding fallback_from
  fallback_from-IsKept zero z o start = self-IsKept start z
  fallback_from-IsKept (suc n) z o start =
      pick-IsKept start z
        (in_types valid spans disabled pageblock_order (fallbacks start) z o n start)
        (fallback_from valid spans disabled pageblock_order n z o start)
        (in_types-AllKept (fallbacks start) z o n start) (fallback_from-IsKept n z o start)

  rmqueue-IsKept :
      (z : Zone) (o mt : ℕ) → IsKept mt z (rmqueue valid spans disabled pageblock_order z o mt).1
  unfolding rmqueue rmqueue_smallest rmqueue_fallback
  rmqueue-IsKept z o mt =
      let first = rmqueue_smallest z o mt in
      let second = rmqueue_fallback valid spans disabled pageblock_order first.1 o mt in
      let third = rmqueue_smallest second.1 o reserve in
      let a = smallest_from-IsKept mt (max_order - o) 0 z o mt in
      let b = trans-IsKept mt z first.1 _ a (fallback_from-IsKept (max_order - o) first.1 o mt) in
      let c =
        trans-IsKept mt z second.1 _ b
          (smallest_from-IsKept mt (max_order - o) 0 second.1 o reserve) in
      let found : ℕ → Option ℕ × Zone = λ p. (some p, second.1) in
      Option_both (λ (t : Option ℕ × Zone). IsKept mt z t.1) first.0 _ (λ p. (some p, first.1))
        (if_both (λ (t : Option ℕ × Zone). IsKept mt z t.1) (mt == reserve) (none, first.1) _ a
          (Option_both (λ (t : Option ℕ × Zone). IsKept mt z t.1) second.0 third found c (λ p. b)))
        (λ p. a)

  pub bulk-IsKept :
      (n : ℕ) (z : Zone) (o mt : ℕ) (cold : Bool) (before after : List ℕ)
      → IsKept mt z (bulk valid spans disabled pageblock_order n z o mt cold before after).0
  unfolding bulk
  bulk-IsKept zero z o mt cold before after = self-IsKept mt z
  bulk-IsKept (suc n) z o mt cold before after =
      let r = rmqueue valid spans disabled pageblock_order z o mt in
      let kept = rmqueue-IsKept z o mt in
      let run = λ (p : ℕ).
        let marked = set_freepage_migratetype r.1 p mt in
        if cold
        then bulk valid spans disabled pageblock_order n marked o mt cold before (p ∷ after)
        else bulk valid spans disabled pageblock_order n marked o mt cold (before ++ (p ∷ []))
            after in
      let next = λ (p : ℕ).
        trans-IsKept mt z r.1 (set_freepage_migratetype r.1 p mt) kept (marked-IsKept mt r.1 p) in
      let more : ℕ → Zone × List ℕ × ℕ = λ p. ((run p).0, (run p).1, (run p).2 + 1) in
      Option_both (λ (t : Zone × List ℕ × ℕ). IsKept mt z t.0) r.0 (r.1, before ++ after, 0) more
        kept
        (λ p.
          if_both (λ (t : Zone × List ℕ × ℕ). IsKept mt z t.0) cold _ _
            (trans-IsKept mt z _ _ (next p) (bulk-IsKept n _ o mt cold before (p ∷ after)))
            (trans-IsKept mt z _ _ (next p) (bulk-IsKept n _ o mt cold (before ++ (p ∷ [])) after)))
