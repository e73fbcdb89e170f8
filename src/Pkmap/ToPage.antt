-- ===== src/Pkmap/ToPage.antt =====
-- The page behind an address: kmap_to_page of ulk_pkmap/highmem.c.
use mathlib.Core.Path.{subst}
use my_posts.Prelude.{
  ℕ, ◌+◌, ◌-◌, ◌*◌, ◌/◌, ◌<◌, ◌≡◌, ap, ◌∙◌, true, ◌&&◌, Option, some, ltb, leb, if◌then◌else◌,
  arith,
}
use my_posts.Pkmap.{Pkmap, done, kmap_high}
use my_posts.Pkmap.Slots.{IsValid}
use my_posts.Pkmap.High.{Kmapped, kmap_high-Kmapped}

abbrev pub page_size : ℕ
page_size = 4096

-- `PKMAP_BASE`, and `virt_to_page` for addresses elsewhere.
module _ (pkmap_base : ℕ) (virt_to_page : ℕ → Option ℕ) where
  abbrev pub pkmap_addr : ℕ → ℕ
  pkmap_addr i = pkmap_base + i * page_size

  abbrev pub pkmap_nr : ℕ → ℕ
  pkmap_nr addr = (addr - pkmap_base) / page_size

  unfoldable pub kmap_to_page : ℕ → Pkmap → ℕ → Option ℕ
  kmap_to_page last_pkmap s addr =
      if leb (pkmap_addr 0) addr && ltb addr (pkmap_addr last_pkmap)
      then s.table (pkmap_nr addr)
      else virt_to_page addr

  by_slot :
      (n i off : ℕ) (s : Pkmap)
      → i < n
      → off < page_size
      → kmap_to_page n s (pkmap_addr i + off) ≡ s.table i
  unfolding kmap_to_page
  by_slot n i off s lt small =
      let nr : pkmap_nr (pkmap_addr i + off) ≡ i = omega (arith, small) in
      let low : leb (pkmap_addr 0) (pkmap_addr i + off) ≡ true = ground arith in
      let high : ltb (pkmap_addr i + off) (pkmap_addr n) ≡ true =
        let le : pkmap_addr i + off < pkmap_addr n = omega (arith, lt, small) in
        ground (arith, le) in
      rw (low, high) (ap s.table nr)

  -- kmap_to_page of any address within the slot that kmap_high on a valid table of slots has
  -- returned for a page gives that page.
  pub kmap_to_page-kmap_high :
      (n page i off : ℕ) (s s' : Pkmap)
      → IsValid n s
      → kmap_high n page s ≡ done i s'
      → off < page_size
      → kmap_to_page n s' (pkmap_addr i + off) ≡ some page
  kmap_to_page-kmap_high n page i off s s' v e small =
      let m = subst (λ o. Kmapped n page s o) e (kmap_high-Kmapped n page s v) in
      let f = m.valid.forward i page m.mapped in by_slot n i off s' f.0 small ∙ f.1
