-- ===== src/Buddy/Tests.antt =====
-- The buddy system at concrete zones.
use my_posts.Prelude.{
  ℕ, zero, suc, ◌≡◌, refl, sym, ◌∙◌, inl, inr, arith, Bool, true, false, none, some, List, [], ◌∷◌,
  ◌==◌, has, del, IsOnce, if◌then◌else◌,
}
use my_posts.Prelude.Int.{◌+ℤ◌, ◌-ℤ◌, quot}
use my_posts.Buddy.{Zone, free_one, free_one_page, rmqueue_smallest}
use my_posts.Buddy.Valid.{IsValid, IsHeld, IsFree, IsIn}
use my_posts.Buddy.Valid.Count.{free_count, weight}
use my_posts.Buddy.Valid.Pages.{pages-IsHeld}
use my_posts.Buddy.Free.{IsPut, free_one-IsPut}
use my_posts.Buddy.Free.Page.{IsFreed, free_one_page-IsFreed}
use my_posts.Buddy.Alloc.Smallest.{Returns, rmqueue_smallest-Returns}
use my_posts.Buddy.Fallback.{rmqueue}
use my_posts.Buddy.Fallback.Search.{Answers, AllSmall, rmqueue-Answers}
use my_posts.Buddy.Bulk.{rmqueue_bulk}
use my_posts.Buddy.Bulk.Refill.{IsRefilled, rmqueue_bulk-IsRefilled}
use my_posts.Buddy.Pcp.{free_pcppages_bulk}
use my_posts.Buddy.Pcp.Store.{IsStore}
use my_posts.Buddy.Pcp.Drain.{IsDrained, free_pcppages_bulk-IsDrained}
use my_posts.Buddy.Pcp.Cpu.{PerCpuPages, free_hot_cold_page, from_pcp}
use my_posts.Buddy.Pcp.HotCold.{IsCpu, IsStored, free_hot_cold_page-IsStored}
use my_posts.Buddy.Pcp.Take.{Obtains, from_pcp-Obtains}
use my_posts.Buddy.Watermark.{zone_watermark_ok}
use my_posts.Buddy.Watermark.Enough.{rmqueue-zone_watermark_ok}
use my_posts.Buddy.Cycle.{IsRestored, free_one-rmqueue}

-- A zone of frames without holes, where nothing is free.
abbrev no_holes : ℕ → Bool
no_holes pfn = true

abbrev one_zone : ℕ → ℕ
one_zone pfn = 0

abbrev full : Zone
full = record {
  order = λ p. none;
  free_list = λ o mt. [];
  nr_free = λ o. 0;
  nr_free_pages = 0;
  all_unreclaimable = true;
  pages_scanned = 7;
  pageblock_migratetype = λ b. 2;
  freepage_migratetype = λ p. 0;
}

full-IsValid : IsValid no_holes one_zone full
full-IsValid = record {
  list_of = λ p. 0;
  linked = record {
    listed = record {
      once = λ o mt. _;
      on_list = λ o mt p. refl;
      typed = λ p o h. ground (arith, h);
    };
    tally = λ o. refl;
  };
  tiled = record {
    block = λ p o h. ground (arith, h);
    apart = λ p o q k h i ne. ground (arith, h);
    maximal = λ p o h lt. ground (arith, h);
  };
}

-- The four pages from 12 on are free.
abbrev upper : Zone
upper = free_one no_holes one_zone false full 12 2 2

page_12-IsHeld : IsHeld no_holes one_zone full 12 2
page_12-IsHeld = record {
  block = record { order = omega arith; aligned = refl; whole = λ n i. refl };
  apart = λ q k h. ground (arith, h);
}

upper-IsPut : IsPut no_holes one_zone full 12 2 upper
upper-IsPut = free_one-IsPut no_holes one_zone full 12 2 2 full-IsValid page_12-IsHeld (omega arith)

none-IsFree : (n : ℕ) → ¬ (IsFree full n)
unfolding IsFree
none-IsFree n f = let (q, k, h, i) = f in ground (arith, h)

blocks_apart : (n : ℕ) → IsIn 8 2 n → ¬ (IsIn 12 2 n)
unfolding IsIn
blocks_apart n i j = omega (arith, i, j)

full_count : 0 ≡ free_count full
unfolding weight
full_count = refl

page_8-IsHeld : IsHeld no_holes one_zone upper 8 2
page_8-IsHeld =
    pages-IsHeld no_holes one_zone upper 8 2
      (record { order = omega arith; aligned = refl; whole = λ n i. refl })
      (λ n i f. elim ((upper-IsPut.pages n).0 f) [
        | inl g ↦ none-IsFree n g
        | inr g ↦ blocks_apart n i g
      ])

-- With the four pages from 8 on they are a block of order 3.
free_one-IsPut_example :
    IsPut no_holes one_zone upper 8 2 (free_one no_holes one_zone false upper 8 2 1)
free_one-IsPut_example =
    free_one-IsPut no_holes one_zone upper 8 2 1 upper-IsPut.valid_zone page_8-IsHeld (omega arith)

free_one_page-IsFreed_example :
    IsFreed no_holes one_zone full 12 2 (free_one_page no_holes one_zone false full 12 2 2)
free_one_page-IsFreed_example =
    free_one_page-IsFreed no_holes one_zone full 12 2 2 full-IsValid page_12-IsHeld (omega arith)
      full_count

merged_order : (free_one no_holes one_zone false upper 8 2 1).order 8 ≡ some 3
unfolding free_one
merged_order = refl

-- The block is split for one page.
rmqueue_smallest-Returns_example :
    Returns no_holes one_zone upper 0 0 2 (rmqueue_smallest upper 0 2)
rmqueue_smallest-Returns_example =
    rmqueue_smallest-Returns no_holes one_zone upper 0 2 upper-IsPut.valid_zone (omega arith)
      (omega arith)

-- It is on the list of MIGRATE_MOVABLE, and is moved to that of MIGRATE_UNMOVABLE.
rmqueue-Answers_example :
    Answers no_holes one_zone upper 1
      (AllSmall upper 1)
      (rmqueue no_holes no_holes false 3 upper 1 0)
rmqueue-Answers_example =
    rmqueue-Answers no_holes one_zone no_holes false 3 upper 1 0 upper-IsPut.valid_zone
      (omega arith) (omega arith)

taken : Zone
taken = (rmqueue no_holes no_holes false 3 upper 1 0).1

rmqueue-upper : rmqueue no_holes no_holes false 3 upper 1 0 ≡ (some 12, taken)
unfolding rmqueue taken free_one
rmqueue-upper = refl

taken_list : taken.free_list 1 0 ≡ 14 ∷ []
unfolding rmqueue taken free_one
taken_list = refl

free_one-rmqueue_example :
    IsRestored no_holes one_zone upper (free_one no_holes one_zone false taken 12 1 3)
free_one-rmqueue_example =
    free_one-rmqueue no_holes one_zone no_holes false 3 upper taken 12 1 0 3 upper-IsPut.valid_zone
      (omega arith) (omega arith) (omega arith) rmqueue-upper

-- Four pages are free and counted.
abbrev stocked : Zone
stocked = free_one_page no_holes one_zone false full 12 2 2

stocked-IsFreed : IsFreed no_holes one_zone full 12 2 stocked
stocked-IsFreed =
    free_one_page-IsFreed no_holes one_zone full 12 2 2 full-IsValid page_12-IsHeld (omega arith)
      full_count

rmqueue_bulk-IsRefilled_example :
    IsRefilled no_holes one_zone no_holes false 3 stocked 0 5
      (3 ∷ [])
      2
      false
      (rmqueue_bulk no_holes no_holes false 3 stocked 0 5 (3 ∷ []) 2 false)
rmqueue_bulk-IsRefilled_example =
    rmqueue_bulk-IsRefilled no_holes one_zone no_holes false 3 stocked 0 5 (3 ∷ []) 2 false
      stocked-IsFreed.put.valid_zone stocked-IsFreed.counted (omega arith) (omega arith)

refilled_list :
    (rmqueue_bulk no_holes no_holes false 3 stocked 0 5 (3 ∷ []) 2 false).1
    ≡ 12 ∷ 13 ∷ 14 ∷ 15 ∷ 3 ∷ []
unfolding rmqueue_bulk rmqueue free_one_page free_one del
refilled_list = refl

-- Three pages on the lists of a cpu.
abbrev pcp_lists : ℕ → List ℕ
pcp_lists zero = 8 ∷ []
pcp_lists (suc zero) = []
pcp_lists (suc (suc zero)) = 20 ∷ 9 ∷ []
pcp_lists (suc (suc (suc t))) = []

page-IsHeld : (t p : ℕ) → has p (pcp_lists t) ≡ true → IsHeld no_holes one_zone full p 0
page-IsHeld t p h = record {
  block = record { order = omega arith; aligned = omega arith; whole = λ n i. refl };
  apart = λ q k e. ground (arith, e);
}

lists-IsOnce : (t : ℕ) → IsOnce (pcp_lists t)
lists-IsOnce zero = (refl, _)
lists-IsOnce (suc zero) = _
lists-IsOnce (suc (suc zero)) = (refl, (refl, _))
lists-IsOnce (suc (suc (suc t))) = _

-- The list of a page.
abbrev home : ℕ → ℕ
home p = if p == 8 then 0 else 2

lists_home : (t p : ℕ) → has p (pcp_lists t) ≡ true → t ≡ home p
lists_home zero p h = ground (arith, h)
lists_home (suc zero) p h = ground (arith, h)
lists_home (suc (suc zero)) p h = ground (arith, h)
lists_home (suc (suc (suc t))) p h = ground (arith, h)

pcp-IsStore : IsStore no_holes one_zone full pcp_lists
pcp-IsStore = record {
  valid_zone = full-IsValid;
  counted = full_count;
  typed = λ t p h. omega arith;
  held = page-IsHeld;
  once = lists-IsOnce;
  alone = λ t u p h i. lists_home t p h ∙ sym (lists_home u p i);
}

free_pcppages_bulk-IsDrained_example :
    IsDrained no_holes one_zone full pcp_lists 2
      (free_pcppages_bulk no_holes one_zone full 2 pcp_lists)
free_pcppages_bulk-IsDrained_example =
    free_pcppages_bulk-IsDrained no_holes one_zone full pcp_lists 2 pcp-IsStore (omega arith)

-- The pages 8 and 9 are a block of order 1 then.
drained_order : (free_pcppages_bulk no_holes one_zone full 3 pcp_lists).0.order 8 ≡ some 1
unfolding free_pcppages_bulk free_one
drained_order = refl

-- The lists of a cpu that a fourth page makes too long.
abbrev three_pages : PerCpuPages
three_pages = record { count = 3; high = 4; batch = 2; lists = pcp_lists }

three_pages-IsCpu : IsCpu no_holes one_zone full three_pages
three_pages-IsCpu = record { store = pcp-IsStore; count = refl; batches = omega arith }

page_24-IsHeld : IsHeld no_holes one_zone full 24 0
page_24-IsHeld = record {
  block = record { order = omega arith; aligned = refl; whole = λ n i. refl };
  apart = λ q k e. ground (arith, e);
}

not_listed : (t : ℕ) → has 24 (pcp_lists t) ≡ false
not_listed zero = refl
not_listed (suc zero) = refl
not_listed (suc (suc zero)) = refl
not_listed (suc (suc (suc t))) = refl

free_hot_cold_page-IsStored_example :
    IsStored no_holes one_zone full three_pages 24
      (free_hot_cold_page no_holes one_zone 3 true false full three_pages 24)
free_hot_cold_page-IsStored_example =
    free_hot_cold_page-IsStored no_holes one_zone 3 false full three_pages 24 three_pages-IsCpu
      page_24-IsHeld not_listed (λ b. omega arith)

fewer_pages : (free_hot_cold_page no_holes one_zone 3 true false full three_pages 24).1.count ≡ 2
unfolding free_hot_cold_page
fewer_pages = refl

stocked_ok : zone_watermark_ok stocked 2 0 0 false false 1 ≡ true
unfolding zone_watermark_ok free_one_page free_one ◌-ℤ◌ ◌+ℤ◌ quot
stocked_ok = refl

rmqueue-zone_watermark_ok_example :
    (p : ℕ) × ((rmqueue no_holes no_holes false 3 stocked 2 0).0 ≡ some p)
rmqueue-zone_watermark_ok_example =
    rmqueue-zone_watermark_ok no_holes one_zone no_holes false 3 stocked 2 0 0 0 false false 1
      stocked-IsFreed.put.valid_zone stocked-IsFreed.counted (omega arith) (omega arith)
      (omega arith) stocked_ok

-- The list of type 1 is empty, and is not refilled, since nothing is free.
from_pcp-Obtains_example :
    Obtains no_holes one_zone full three_pages
      (from_pcp no_holes no_holes false 3 full three_pages 1 false)
from_pcp-Obtains_example =
    from_pcp-Obtains no_holes one_zone no_holes false 3 full three_pages 1 false three_pages-IsCpu
      (omega arith) (omega arith)

-- A cold page of type 2 is the last of its list.
cold_page : (from_pcp no_holes no_holes false 3 full three_pages 2 true).0 ≡ some 9
unfolding from_pcp
cold_page = refl
