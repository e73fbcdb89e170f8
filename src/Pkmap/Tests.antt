-- ===== src/Pkmap/Tests.antt =====
-- The mappings of highmem.c on a table of four slots.
use my_posts.Prelude.{set, ◌≤◌, ◌≡◌, refl, true, false, none, some, arith, ◌==◌, if◌then◌else◌}
use my_posts.Pkmap.{Pkmap, done, map_slot, kmap_high, kunmap_high}
use my_posts.Prelude.{ℕ, [], ◌∷◌, ◌%◌, ◌+◌, if_both, IsOnce}
use my_posts.Pkmap.{pin}
use my_posts.Pkmap.ToPage.{pkmap_addr, kmap_to_page, kmap_to_page-kmap_high}
use my_posts.Pkmap.Address.{Table, set_page_address}
use my_posts.Pkmap.Address.Refine.{IsTable, set_page_address-IsTable}
use my_posts.Pkmap.Slots.{IsValid, none-some}
use my_posts.Pkmap.Map.{map_slot-IsValid, count-IsValid}
use my_posts.Pkmap.High.{Kmapped, kmap_high-Kmapped, IsUnmapped, kunmap_high-IsUnmapped}

abbrev unmapped : Pkmap
unmapped = record { count = λ _. 0; table = λ _. none; last = 1; virtual = λ _. none; flushes = 0 }

zero_less : 1 ≤ 0 → ⊥
zero_less h = omega (arith, h)

unmapped-IsValid : IsValid 4 unmapped
unmapped-IsValid = record {
  last_in = omega arith;
  backward = λ i p e. elim (none-some refl e) [ ];
  forward = λ i p e. elim (none-some refl e) [ ];
  empty = λ i e. refl;
  filled = λ i e. elim (zero_less e) [ ];
}

-- Page 7 is mapped at slot 1, without a user and with one.
abbrev unused : Pkmap
unfolding map_slot
unused = map_slot 4 7 unmapped

unused-IsValid : IsValid 4 unused
unfolding unused
unused-IsValid = map_slot-IsValid 4 7 unmapped unmapped-IsValid refl refl

abbrev in_use : Pkmap
unfolding unused
in_use = record unused { count = set unused.count 1 2 }

in_use-IsValid : IsValid 4 in_use
unfolding in_use unused map_slot
in_use-IsValid = count-IsValid 4 1 2 unused unused-IsValid (omega arith) (omega arith)

kmap_high-Kmapped_example : Kmapped 4 9 in_use (kmap_high 4 9 in_use)
kmap_high-Kmapped_example = kmap_high-Kmapped 4 9 in_use in_use-IsValid

kunmap_high-IsUnmapped_example :
    (s' : Pkmap) × (kunmap_high true 7 in_use
      ≡ done (if in_use.count 1 == 2 then true else false) s')
    × IsUnmapped 4 7 in_use 1 s'
unfolding in_use unused map_slot
kunmap_high-IsUnmapped_example =
    kunmap_high-IsUnmapped true 4 7 1 in_use in_use-IsValid refl (omega arith)

-- Page 7 is mapped once more, at slot 1.
kmap_to_page-kmap_high_example :
    kmap_to_page 0xff800000
      (λ _. none)
      4
      (record in_use { count = set in_use.count 1 3 })
      (pkmap_addr 0xff800000 (λ _. none) 1 + 5)
    ≡ some 7
unfolding in_use unused map_slot kmap_high pin
kmap_to_page-kmap_high_example =
    kmap_to_page-kmap_high 0xff800000 (λ _. none) 4 7 1 5 in_use
      (record in_use { count = set in_use.count 1 3 }) in_use-IsValid refl (omega arith)

-- A table of four buckets, without pages and with page 7 at slot 1.
abbrev hash : ℕ → ℕ
hash p = p % 4

abbrev no_pages : Table
no_pages = record { page = λ _. 0; address = λ _. 0; htable = λ _. [] }

no_pages-IsTable : IsTable hash (λ _. true) (λ _. none) no_pages (λ _. none)
no_pages-IsTable = record {
  once = λ b. _;
  sound = λ b i e. ground (arith, e);
  complete = λ p i e. ground (arith, e);
}

set_page_address-IsTable_example :
    (t : Table) × (set_page_address hash (λ _. true) (λ _. none) no_pages 7 (some 1) ≡ some t)
    × IsTable hash (λ _. true) (λ _. none) t (set (λ _. none) 7 (some 1))
set_page_address-IsTable_example =
    set_page_address-IsTable hash (λ _. true) (λ _. none) no_pages (λ _. none) 7 (some 1)
      no_pages-IsTable refl (λ i e. (refl, λ q w. ground (arith, w)))

abbrev one_page : Table
one_page = record { page = λ _. 7; address = λ _. 1; htable = λ b. if b == 3 then 1 ∷ [] else [] }

one_page-IsTable : IsTable hash (λ _. true) (λ _. none) one_page (set (λ _. none) 7 (some 1))
one_page-IsTable = record {
  once = λ b. if_both IsOnce (b == 3) (1 ∷ []) [] (refl, _) _;
  sound = λ b i e. ground (arith, e);
  complete = λ p i e. ground (arith, e);
}
