-- ===== src/Buddy/Pcp/HotCold.antt =====
-- The per-cpu pages agree with the zone.
use my_posts.Prelude.{
  ℕ, ◌+◌, ◌/◌, ◌^◌, ◌≤◌, ◌<◌, ◌≡◌, refl, sym, ◌↔◌, ◌⊎◌, inl, inr, arith, Bool, true, false, ◌==◌,
  List, [], ◌∷◌, ◌++◌, ltb, leb, has, set, if◌then◌else◌, if_both, if_split,
}
use my_posts.Buddy.{Zone, migrate_types}
use my_posts.Buddy.Fallback.{movable, set_freepage_migratetype}
use my_posts.Buddy.Pcp.{migrate_pcptypes}
use my_posts.Buddy.Pcp.Cpu.{
  PerCpuPages, drain_to, drain_pages, drain_zone_pages, free_hot_cold_page,
}
use my_posts.Buddy.Pcp.Store.{IsStore, OnList, all_pages}
use my_posts.Buddy.Pcp.Return.{SamePages}
use my_posts.Buddy.Pcp.Drain.{free_pcppages_bulk-IsDrained}
use my_posts.Buddy.Pcp.Insert.{insert-IsStore, insert-OnList, insert-all_pages}
use my_posts.Buddy.Valid.{IsHeld, IsFree}
use my_posts.Buddy.Valid.Add.{IsMore, cons-IsMore, snoc-IsMore}
use my_posts.Buddy.Valid.Same.{same-IsLinked, same-IsTiled, same-IsHeld, same-IsFree}

module _ (valid : ℕ → Bool) (zone_id : ℕ → ℕ) where
  -- `count` is right, and a batch is not more than what makes the lists too long.
  pub record IsCpu (z : Zone) (pcp : PerCpuPages) : Type 0 where
    pub store : IsStore valid zone_id z pcp.lists
    pub count : pcp.count ≡ all_pages pcp.lists
    pub batches : pcp.batch ≤ pcp.high

  -- Some pages have gone from the lists to the zone.
  pub record IsDrainedTo (z : Zone) (pcp : PerCpuPages) (n : ℕ) (r : Zone × PerCpuPages)
      : Type 0 where
    pub cpu : IsCpu r.0 r.1
    pub pages : SamePages valid zone_id z pcp.lists r.0 r.1.lists
    pub left : r.1.count + n ≡ pcp.count
    pub high : r.1.high ≡ pcp.high

  drain_to-IsDrainedTo :
      (z : Zone) (pcp : PerCpuPages) (n : ℕ)
      → IsCpu z pcp
      → n ≤ pcp.count
      → IsDrainedTo z pcp n (drain_to valid zone_id z pcp n)
  unfolding drain_to
  drain_to-IsDrainedTo z pcp n cpu le =
      let d =
        free_pcppages_bulk-IsDrained valid zone_id z pcp.lists n cpu.store
          (omega (arith, le, cpu.count)) in
      record {
        cpu = record {
          store = d.store;
          count = omega (arith, d.balance, cpu.count);
          batches = cpu.batches;
        };
        pages = d.pages;
        left = omega (arith, le);
        high = refl;
      }

  -- drain_pages empties the lists.
  pub drain_pages-IsDrainedTo :
      (z : Zone) (pcp : PerCpuPages)
      → IsCpu z pcp
      → IsDrainedTo z pcp pcp.count (drain_pages valid zone_id z pcp)
  unfolding drain_pages SamePages
  drain_pages-IsDrainedTo z pcp cpu =
      if_split (IsDrainedTo z pcp pcp.count) (pcp.count == 0) (z, pcp)
        (drain_to valid zone_id z pcp pcp.count)
        (λ x. record {
          cpu = cpu;
          pages = λ n. (λ f. f, λ f. f);
          left = ground (arith, x);
          high = refl;
        })
        (λ x. drain_to-IsDrainedTo z pcp pcp.count cpu (omega arith))

  pub drain_zone_pages-IsDrainedTo :
      (z : Zone) (pcp : PerCpuPages)
      → IsCpu z pcp
      → IsDrainedTo z pcp
          (if leb pcp.batch pcp.count then pcp.batch else pcp.count)
          (drain_zone_pages valid zone_id z pcp)
  unfolding drain_zone_pages SamePages
  drain_zone_pages-IsDrainedTo z pcp cpu =
      let n = if leb pcp.batch pcp.count then pcp.batch else pcp.count in
      let le : n ≤ pcp.count = ground arith in
      if_split (IsDrainedTo z pcp n) (ltb 0 n) (drain_to valid zone_id z pcp n) (z, pcp)
        (λ x. drain_to-IsDrainedTo z pcp n cpu le)
        (λ x.
          let none_left : n ≡ 0 = ground (arith, x) in
          record {
            cpu = cpu;
            pages = λ i. (λ f. f, λ f. f);
            left = omega (arith, none_left);
            high = refl;
          })

  -- The page is on a list or free, and the lists are not too long.
  pub record IsStored (z : Zone) (pcp : PerCpuPages) (page : ℕ) (r : Zone × PerCpuPages)
      : Type 0 where
    pub cpu : IsCpu r.0 r.1
    pub pages :
        (n : ℕ)
        → (IsFree r.0 n ⊎ OnList r.1.lists n) ↔ ((IsFree z n ⊎ OnList pcp.lists n) ⊎ (n ≡ page))
    pub below : 1 ≤ pcp.batch → pcp.count < pcp.high → r.1.count < r.1.high

  marked-IsStore :
      (z : Zone) (lists : ℕ → List ℕ) (page mt : ℕ)
      → mt < migrate_types
      → IsStore valid zone_id z lists
      → IsStore valid zone_id (set_freepage_migratetype z page mt) lists
  marked-IsStore z lists page mt lt store =
      let y = set_freepage_migratetype z page mt in
      let ok = store.valid_zone in
      record {
        valid_zone = record {
          list_of = ok.list_of;
          linked =
              same-IsLinked z y ok.list_of
                (record { order = refl; free_list = refl; nr_free = refl }) ok.linked;
          tiled = same-IsTiled valid zone_id z y refl ok.tiled;
        };
        counted = store.counted;
        typed = λ t p h.
            if_both (λ v. v < migrate_types) (p == page) mt (z.freepage_migratetype p) lt
              (store.typed t p h);
        held = λ t p h. same-IsHeld valid zone_id z y refl p 0 (store.held t p h);
        once = store.once;
        alone = store.alone;
      }

  finish-IsStored :
      (z y : Zone) (pcp filled : PerCpuPages) (page n : ℕ) (r : Zone × PerCpuPages)
      → y.order ≡ z.order
      → filled.count ≡ pcp.count + 1
      → filled.high ≡ pcp.high
      → ((i : ℕ) → OnList filled.lists i ↔ (OnList pcp.lists i ⊎ (i ≡ page)))
      → IsDrainedTo y filled n r
      → (1 ≤ pcp.batch → pcp.count < pcp.high → pcp.count + 1 < pcp.high + n)
      → IsStored z pcp page r
  unfolding SamePages
  finish-IsStored z y pcp filled page n r e counted high on drained few = record {
    cpu = drained.cpu;
    pages = λ i.
        let (a, b) = drained.pages i in
        let (c, d) = on i in
        (
          λ f. elim (a f) [
            | inl g ↦ inl (inl (same-IsFree y z i (sym e) g))
            | inr g ↦ elim (c g) [ inl h ↦ inl (inr h) | inr h ↦ inr h ]
          ],
          λ f. b (elim f [
            | inl (inl g) ↦ inl (same-IsFree z y i e g)
            | inl (inr h) ↦ inr (d (inl h))
            | inr h ↦ inr (d (inr h))
          ]),
        );
    below = λ p q. omega (arith, few p q, drained.left, counted, drained.high, high);
  }

  -- free_hot_cold_page of a page that is held and on no list, and that free_pages_prepare accepts,
  -- in a zone whose pageblocks have one of the migrate types, keeps count equal to the pages on the
  -- per-cpu lists, each page on them held, on one list once and of one of the migrate types, the
  -- zone valid and its nr_free_pages right, where all this holds before and a batch is not more than
  -- high. The page and the others that were free or on a list are free or on a list, and no others
  -- are; with batches of at least one page, count stays below high.
  pub free_hot_cold_page-IsStored :
      (pageblock_order : ℕ) (cold : Bool) (z : Zone) (pcp : PerCpuPages) (page : ℕ)
      → IsCpu z pcp
      → IsHeld valid zone_id z page 0
      → ((t : ℕ) → has page (pcp.lists t) ≡ false)
      → ((b : ℕ) → z.pageblock_migratetype b < migrate_types)
      → IsStored z pcp page (free_hot_cold_page valid zone_id pageblock_order true cold z pcp page)
  unfolding free_hot_cold_page SamePages
  free_hot_cold_page-IsStored pageblock_order cold z pcp page cpu held out kinds =
      let mt = z.pageblock_migratetype (page / 2 ^ pageblock_order) in
      let y = set_freepage_migratetype z page mt in
      let kind = if leb migrate_pcptypes mt then movable else mt in
      let old = pcp.lists kind in
      let pages = if cold then old ++ (page ∷ []) else page ∷ old in
      let once = cpu.store.once kind in
      let more =
        if_both (λ l. IsMore page l old) cold (old ++ (page ∷ [])) (page ∷ old)
          (snoc-IsMore page old once (out kind)) (cons-IsMore page old once (out kind)) in
      let marked =
        marked-IsStore z pcp.lists page mt (kinds (page / 2 ^ pageblock_order)) cpu.store in
      let held' = same-IsHeld valid zone_id z y refl page 0 held in
      let own : y.freepage_migratetype page < migrate_types =
        ground (arith, kinds (page / 2 ^ pageblock_order)) in
      let filled = record pcp { lists = set pcp.lists kind pages; count = pcp.count + 1 } in
      let lt : kind < 3 = ground (arith, kinds (page / 2 ^ pageblock_order)) in
      let longer =
        insert-all_pages valid zone_id y pcp.lists kind page pages marked held' own out more lt in
      let cpu' : IsCpu y filled = record {
        store = insert-IsStore valid zone_id y pcp.lists kind page pages marked held' own out more;
        count = omega (arith, longer, cpu.count);
        batches = cpu.batches;
      } in
      let on = insert-OnList valid zone_id y pcp.lists kind page pages marked held' own out more in
      if_split (IsStored z pcp page) (leb pcp.high (pcp.count + 1)) _ (y, filled)
        (λ x.
          finish-IsStored z y pcp filled page pcp.batch _ refl refl refl on
            (drain_to-IsDrainedTo y filled pcp.batch cpu' (ground (arith, x, cpu.batches)))
            (λ a b. omega (arith, a, b)))
        (λ x.
          finish-IsStored z y pcp filled page 0 (y, filled) refl refl refl on
            (record { cpu = cpu'; pages = λ i. (λ f. f, λ f. f); left = omega arith; high = refl })
            (λ a b. ground (arith, x)))
