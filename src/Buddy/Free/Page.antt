-- ===== src/Buddy/Free/Page.antt =====
-- free_one_page, with the count of the zone.
use my_posts.Prelude.{
  ℕ, zero, suc, ◌+◌, ◌-◌, inl, inr, ◌^◌, ◌<◌, ◌≡◌, refl, sym, ap, ◌∙◌, Bool, false, if_both,
}
use Prim.Native.Nat.{bit_and}
use my_posts.Buddy.{
  find_buddy_index, Zone, migrate_types, merge, put_block, free_one, free_one_page, index,
  page_is_buddy, max_order,
}
use my_posts.Buddy.Valid.{IsValid, IsHeld, drop_block}
use my_posts.Buddy.Valid.Count.{free_count}
use my_posts.Buddy.Valid.Same.{same-IsLinked, same-IsTiled, same-IsHeld, same-IsFree}
use my_posts.Buddy.Free.{IsPut, free_one-IsPut}

-- What the buddy system leaves to its callers.
pub record IsLeft (z r : Zone) : Type 0 where
  pub nr_free_pages : r.nr_free_pages ≡ z.nr_free_pages
  pub all_unreclaimable : r.all_unreclaimable ≡ z.all_unreclaimable
  pub pages_scanned : r.pages_scanned ≡ z.pages_scanned
  pub freepage_migratetype : r.freepage_migratetype ≡ z.freepage_migratetype

module _ (valid : ℕ → Bool) (zone_id : ℕ → ℕ) where
  merge-IsLeft :
      (rounds : ℕ) (z : Zone) (p i o : ℕ) → IsLeft z (merge valid zone_id rounds z p i o).0
  unfolding merge
  merge-IsLeft zero z p i o = record {
    nr_free_pages = refl;
    all_unreclaimable = refl;
    pages_scanned = refl;
    freepage_migratetype = refl;
  }
  merge-IsLeft (suc rounds) z p i o =
      let j = find_buddy_index i o in
      let b = p + j - i in
      let c = bit_and j i in
      let rest = merge-IsLeft rounds (drop_block z b o) (p + c - i) c (o + 1) in
      if_both {A = Zone × ℕ × ℕ × ℕ} (λ t. IsLeft z t.0) (page_is_buddy valid zone_id z p b o)
        (merge valid zone_id rounds (drop_block z b o) (p + c - i) c (o + 1)) (z, p, i, o)
        (record {
          nr_free_pages = rest.nr_free_pages;
          all_unreclaimable = rest.all_unreclaimable;
          pages_scanned = rest.pages_scanned;
          freepage_migratetype = rest.freepage_migratetype;
        })
        (record {
          nr_free_pages = refl;
          all_unreclaimable = refl;
          pages_scanned = refl;
          freepage_migratetype = refl;
        })

  pub free_one-IsLeft : (z : Zone) (p o mt : ℕ) → IsLeft z (free_one valid zone_id false z p o mt)
  unfolding free_one put_block
  free_one-IsLeft z p o mt =
      let left = merge-IsLeft (max_order - 1 - o) z p (index p) o in
      record {
        nr_free_pages = left.nr_free_pages;
        all_unreclaimable = left.all_unreclaimable;
        pages_scanned = left.pages_scanned;
        freepage_migratetype = left.freepage_migratetype;
      }

  -- The block is free, and the zone is to be reclaimed again.
  pub record IsFreed (z : Zone) (p o : ℕ) (r : Zone) : Type 0 where
    pub put : IsPut valid zone_id z p o r
    pub counted : r.nr_free_pages ≡ free_count r
    pub all_unreclaimable : r.all_unreclaimable ≡ false
    pub pages_scanned : r.pages_scanned ≡ 0

  -- free_one_page of a block that is held, not a refused compound page, to a list of one of the
  -- migrate types, keeps a valid zone valid and its nr_free_pages equal to the pages on its lists;
  -- the pages of the block become free and no others, and the zone is to be scanned again by
  -- reclaim.
  pub free_one_page-IsFreed :
      (z : Zone) (p o mt : ℕ)
      → IsValid valid zone_id z
      → IsHeld valid zone_id z p o
      → mt < migrate_types
      → z.nr_free_pages ≡ free_count z
      → IsFreed z p o (free_one_page valid zone_id false z p o mt)
  unfolding free_one_page
  free_one_page-IsFreed z p o mt ok held lt counted =
      let y = record z { all_unreclaimable = false; pages_scanned = 0 } in
      let put =
        free_one-IsPut valid zone_id y p o mt
          (record {
            list_of = ok.list_of;
            linked =
                same-IsLinked z y ok.list_of
                  (record { order = refl; free_list = refl; nr_free = refl }) ok.linked;
            tiled = same-IsTiled valid zone_id z y refl ok.tiled;
          })
          (same-IsHeld valid zone_id z y refl p o held) lt in
      let freed = free_one valid zone_id false y p o mt in
      let r = free_one_page valid zone_id false z p o mt in
      let left = free_one-IsLeft y p o mt in
      record {
        put = record {
          valid_zone = record {
            list_of = put.valid_zone.list_of;
            linked =
                same-IsLinked freed r put.valid_zone.list_of
                  (record { order = refl; free_list = refl; nr_free = refl }) put.valid_zone.linked;
            tiled = same-IsTiled valid zone_id freed r refl put.valid_zone.tiled;
          };
          count = put.count;
          pages = λ n.
              let (a, b) = put.pages n in
              (
                λ i. elim (a (same-IsFree r freed n refl i)) [
                  | inl j ↦ inl (same-IsFree y z n refl j)
                  | inr j ↦ inr j
                ],
                λ i.
                    same-IsFree freed r n refl
                      (b (elim i [ inl j ↦ inl (same-IsFree z y n refl j) | inr j ↦ inr j ])),
              );
        };
        counted = ap (λ t. t + 2 ^ o) (left.nr_free_pages ∙ counted) ∙ sym put.count;
        all_unreclaimable = left.all_unreclaimable;
        pages_scanned = left.pages_scanned;
      }
