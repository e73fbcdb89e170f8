-- ===== src/Buddy/Fallback/Take.antt =====
-- The block that __rmqueue_fallback has found.
use my_posts.Prelude.{
  ℕ, zero, suc, ◌+◌, ◌-◌, ◌/◌, ◌^◌, ◌<◌, ◌≡◌, refl, sym, ap, ◌∙◌, inl, inr, Bool, ◌||◌, some, leb,
  ◌==◌, set, if◌then◌else◌, if_both,
}
use my_posts.Buddy.{Zone, migrate_types, rmv_page_order, list_del, expand}
use my_posts.Buddy.Fallback.{
  reclaimable, move_freepages_block, set_pageblock_migratetype, changing, change_pageblock_range,
  take_fallback,
}
use my_posts.Buddy.Fallback.Moves.{IsMoved, stay-IsMoved, move_freepages_block-IsMoved}
use my_posts.Buddy.Valid.{IsValid, IsLinked, drop_block}
use my_posts.Buddy.Valid.Drop.{drop-IsLinked, drop-IsTiled, drop-IsHeld}
use my_posts.Buddy.Valid.Same.{
  IsSame, same-IsListed, same-IsLinked, same-IsFree, same-free_count, same-IsTiled, same-IsHeld,
}
use my_posts.Buddy.Alloc.{IsGiven, split-IsGiven, expand-IsSplit}

module _ (disabled : Bool) (pageblock_order : ℕ) where
  changing-IsSame :
      (n : ℕ) (z : Zone) (page mt : ℕ) → IsSame z (changing disabled pageblock_order n z page mt)
  unfolding changing
  changing-IsSame zero z page mt = record { order = refl; free_list = refl; nr_free = refl }
  changing-IsSame (suc n) z page mt =
      let rest =
        changing-IsSame n (set_pageblock_migratetype disabled pageblock_order z page mt)
          (page + 2 ^ pageblock_order) mt in
      record { order = rest.order; free_list = rest.free_list; nr_free = rest.nr_free }

-- Only the migrate types of pageblocks may differ.
claimed-IsMoved :
    (disabled : Bool) (pageblock_order : ℕ) (z y : Zone) (page mt : ℕ)
    → IsMoved z y
    → IsMoved z (set_pageblock_migratetype disabled pageblock_order y page mt)
claimed-IsMoved disabled pageblock_order z y page mt moved = record {
  list_of = moved.list_of;
  listed = same-IsListed y _ moved.list_of (λ q. refl) refl moved.listed;
  order = moved.order;
  nr_free = moved.nr_free;
  lengths = moved.lengths;
}

module _ (valid : ℕ → Bool) (zone_id : ℕ → ℕ) (spans : ℕ → Bool) (disabled : Bool)
    (pageblock_order : ℕ) where
  -- The lists have changed after the block was counted out; it is taken from its list, and split.
  finish-IsGiven :
      (z y owned : Zone) (p o n start : ℕ)
      → IsValid valid zone_id z
      → z.order p ≡ some (o + n)
      → start < migrate_types
      → IsMoved (record z { nr_free = set z.nr_free (o + n) (z.nr_free (o + n) - 1) }) y
      → IsSame (rmv_page_order (list_del y p (o + n)) p) owned
      → IsGiven valid zone_id z p o (expand owned p o n start)
  finish-IsGiven z y owned p o n start ok at lt moved same =
      let whole = record y { nr_free = z.nr_free } in
      let linked : IsLinked whole moved.list_of = record {
        listed = same-IsListed y whole moved.list_of (λ q. refl) refl moved.listed;
        tally = λ k. ok.linked.tally k ∙ sym (moved.lengths k);
      } in
      let tiled = same-IsTiled valid zone_id z whole moved.order ok.tiled in
      let at' : whole.order p ≡ some (o + n) = ap (λ f. f p) moved.order ∙ at in
      let both : IsSame (drop_block whole p (o + n)) owned = record {
        order = same.order;
        free_list = same.free_list;
        nr_free = same.nr_free ∙ moved.nr_free;
      } in
      let dropped = drop_block whole p (o + n) in
      let split =
        expand-IsSplit valid zone_id n moved.list_of owned p o start
          (same-IsLinked dropped owned moved.list_of both
            (drop-IsLinked whole moved.list_of p (o + n) linked at'))
          (same-IsTiled valid zone_id dropped owned both.order
            (drop-IsTiled valid zone_id whole p (o + n) tiled))
          (same-IsHeld valid zone_id dropped owned both.order p (o + n)
            (drop-IsHeld valid zone_id whole p (o + n) tiled at'))
          lt in
      let given =
        split-IsGiven valid zone_id whole p o (o + n) (expand owned p o n start)
          (record { list_of = moved.list_of; linked = linked; tiled = tiled }) at'
          (record {
            valid_zone = split.valid_zone;
            held = split.held;
            count = split.count ∙ ap (λ t. t + 2 ^ (o + n)) (same-free_count dropped owned both);
            pages = λ i.
                let (a, b) = split.pages i in
                (
                  λ j. elim (a j) [
                    | inl k ↦ inl (same-IsFree owned dropped i (sym both.order) k)
                    | inr k ↦ inr k
                  ],
                  λ j. b (elim j [
                    | inl k ↦ inl (same-IsFree dropped owned i both.order k)
                    | inr k ↦ inr k
                  ]),
                );
          }) in
      record {
        valid_zone = given.valid_zone;
        held = given.held;
        count = given.count;
        pages = λ i.
            let (a, b) = given.pages i in
            (
              λ j. same-IsFree whole z i (sym moved.order) (a j),
              λ j. b (same-IsFree z whole i moved.order j),
            );
      }

  pub take_fallback-IsGiven :
      (z : Zone) (p o n start : ℕ)
      → IsValid valid zone_id z
      → z.order p ≡ some (o + n)
      → start < migrate_types
      → IsGiven valid zone_id z p o
          (take_fallback valid spans disabled pageblock_order z p o n start)
  unfolding take_fallback change_pageblock_range
  take_fallback-IsGiven z p o n start ok at lt =
      let counted = record z { nr_free = set z.nr_free (o + n) (z.nr_free (o + n) - 1) } in
      let listed = same-IsListed z counted ok.list_of (λ q. refl) refl ok.linked.listed in
      let (moved, pages) =
        move_freepages_block valid spans disabled pageblock_order counted p start in
      let claimed =
        if leb (2 ^ (pageblock_order - 1)) pages || disabled
        then set_pageblock_migratetype disabled pageblock_order moved p start
        else moved in
      let c = leb (pageblock_order / 2) (o + n) || (start == reclaimable) || disabled in
      let chosen = if c then claimed else counted in
      let m =
        move_freepages_block-IsMoved valid spans disabled pageblock_order counted ok.list_of p start
          listed lt in
      let m' : IsMoved counted claimed =
        if_both (IsMoved counted) (leb (2 ^ (pageblock_order - 1)) pages || disabled) _ _
          (claimed-IsMoved disabled pageblock_order counted moved p start m) m in
      let m'' : IsMoved counted chosen =
        if_both (IsMoved counted) c claimed counted m' (stay-IsMoved counted ok.list_of listed) in
      let removed = rmv_page_order (list_del chosen p (o + n)) p in
      finish-IsGiven z chosen _ p o n start ok at lt m'' (
        if_both (IsSame removed) (leb pageblock_order (o + n)) _ _
          (changing-IsSame disabled pageblock_order (2 ^ (o + n - pageblock_order)) removed p start)
          (record { order = refl; free_list = refl; nr_free = refl }))
