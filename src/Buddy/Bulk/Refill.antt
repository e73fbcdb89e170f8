-- ===== src/Buddy/Bulk/Refill.antt =====
-- The whole of rmqueue_bulk, with the count of the zone.
use my_posts.Prelude.{
  ℕ, ◌-◌, ◌*◌, ◌^◌, ◌<◌, ◌≡◌, refl, ◌∙◌, inl, inr, arith, Bool, List, [], if◌then◌else◌,
}
use my_posts.Buddy.{Zone, max_order}
use my_posts.Buddy.Fallback.{reserve}
use my_posts.Buddy.Fallback.Search.{AllSmall}
use my_posts.Buddy.Bulk.{bulk, rmqueue_bulk}
use my_posts.Buddy.Bulk.Taken.{IsBatch, bulk-IsBatch}
use my_posts.Buddy.Bulk.Left.{IsKept, KeepTypes, bulk-IsKept}
use my_posts.Buddy.Valid.{IsValid}
use my_posts.Buddy.Valid.Count.{free_count}
use my_posts.Buddy.Valid.Same.{same-IsLinked, same-IsTiled, same-IsHeld, same-IsFree}

module _ (valid : ℕ → Bool) (zone_id : ℕ → ℕ) (spans : ℕ → Bool) (disabled : Bool)
    (pageblock_order : ℕ) where
  -- The list is refilled, and the zone's count is right.
  pub record IsRefilled (z : Zone) (o count : ℕ) (list : List ℕ) (mt : ℕ) (cold : Bool)
      (r : Zone × List ℕ × ℕ) : Type 0 where
    pub batch :
        IsBatch valid zone_id spans disabled pageblock_order z o mt count cold
          (if cold then list else [])
          (if cold then [] else list)
          r
    pub counted : r.0.nr_free_pages ≡ free_count r.0
    pub typed : KeepTypes z r.0

  -- rmqueue_bulk for an order below MAX_ORDER and a type other than MIGRATE_RESERVE, on a valid zone
  -- whose nr_free_pages is right, takes blocks that are held and apart from each other, up to the
  -- number that is asked for, and fewer only if no free block of the order or a larger one is left.
  -- Each is what __rmqueue returns for the zone that those before it have been taken from, and they
  -- stand on the list in the order in which they were taken, in front of the old pages, or in the
  -- opposite order behind them for cold pages. The zone stays valid and its nr_free_pages right. The
  -- first pages of the blocks have one of the migrate types for the per-cpu lists, and every page
  -- that had one before has one.
  pub rmqueue_bulk-IsRefilled :
      (z : Zone) (o count : ℕ) (list : List ℕ) (mt : ℕ) (cold : Bool)
      → IsValid valid zone_id z
      → z.nr_free_pages ≡ free_count z
      → o < max_order
      → mt < reserve
      → IsRefilled z o count list mt cold
          (rmqueue_bulk valid spans disabled pageblock_order z o count list mt cold)
  unfolding rmqueue_bulk IsKept AllSmall KeepTypes
  rmqueue_bulk-IsRefilled z o count list mt cold ok counted lo lt =
      let before = if cold then list else [] in
      let after = if cold then [] else list in
      let r = bulk valid spans disabled pageblock_order count z o mt cold before after in
      let b =
        bulk-IsBatch valid zone_id spans disabled pageblock_order count z o mt cold before after ok
          lo lt in
      let y = record r.0 { nr_free_pages = r.0.nr_free_pages - r.2 * 2 ^ o } in
      let kept = bulk-IsKept valid spans disabled pageblock_order count z o mt cold before after in
      let kept_count : r.0.nr_free_pages ≡ free_count z = kept.0 ∙ counted in
      record {
        batch = record {
          valid_zone = record {
            list_of = b.valid_zone.list_of;
            linked =
                same-IsLinked r.0 y b.valid_zone.list_of
                  (record { order = refl; free_list = refl; nr_free = refl }) b.valid_zone.linked;
            tiled = same-IsTiled valid zone_id r.0 y refl b.valid_zone.tiled;
          };
          taken = b.taken;
          run = b.run;
          typed = b.typed;
          number = b.number;
          at_most = b.at_most;
          short = λ l. b.short l;
          placed = b.placed;
          held = λ p h. same-IsHeld valid zone_id r.0 y refl p o (b.held p h);
          apart = b.apart;
          count = b.count;
          pages = λ i.
              let (c, d) = b.pages i in
              (
                λ f. c (elim f [ inl g ↦ inl (same-IsFree y r.0 i refl g) | inr g ↦ inr g ]),
                λ f. elim (d f) [ inl g ↦ inl (same-IsFree r.0 y i refl g) | inr g ↦ inr g ],
              );
        };
        counted = omega (arith, kept_count, b.count);
        typed = kept.1 (omega (arith, lt));
      }
