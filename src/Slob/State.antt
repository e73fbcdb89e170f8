-- ===== src/Slob/State.antt =====
-- The allocator's state and the entry points `slob_alloc` and `slob_free` of ulk_slob/slob.c, with
-- `slob_new_pages`, `slob_free_pages`, `set_slob_page_free` and `clear_slob_page_free`. Each runs
-- with `slob_lock` held where it touches the state, so a call is one step.
use my_posts.Prelude.{
  ℕ, ◌+◌, ◌-◌, ◌*◌, ◌/◌, ◌%◌, ◌^◌, Bool, true, false, not, ◌&&◌, ◌||◌, Option, none, some, List, [],
  ◌∷◌, ◌++◌, ltb, leb, ◌==◌, take, drop, if◌then◌else◌,
}
use my_posts.Prelude.Int.{pos, pos_part, neg_part}
use my_posts.Slob.Block.{units_of, page_units, Ptr, Mem, base, page_base, set_slob, to_idx}
use my_posts.Slob.PageAlloc.{Align, out_of_fuel, null, got, page_scan}
use my_posts.Slob.PageFree.{page_free}

-- The fields of `struct page` that the allocator uses: `slob_free` is PageSlobFree, `slab` is
-- PageSlab, `nid` is page_to_nid, `order` is compound_order.
pub record Page : Type 0 where
  pub units : ℕ
  pub freelist : Ptr
  pub slob_free : Bool
  pub slab : Bool
  pub nid : ℕ
  pub order : ℕ

-- `free_slob_small`, `free_slob_medium` and `free_slob_large`.
pub data Class : Type 0 where
  small medium large : Class

-- SLOB_BREAK1, SLOB_BREAK2
abbrev pub slob_break1 : ℕ
slob_break1 = 256

abbrev pub slob_break2 : ℕ
slob_break2 = 1024

-- `returned` lists what was given back to the page allocator: first page and order.
pub record Slob : Type 0 where
  pub mem : Mem
  pub page : ℕ → Page
  pub pages : Class → List ℕ
  pub returned : List (ℕ × ℕ)

-- How a call ends; `bug` is a failed BUG_ON.
pub data Run {ℓ} (A : Type ℓ) : Type ℓ where
  ok : A → Run A
  bug : Run A
  stuck : Run A

abbrev pub update {ℓ} : {A : Type ℓ} → (ℕ → A) → ℕ → A → ℕ → A
update f k v n = if n == k then v else f n

abbrev pub class_eq : Class → Class → Bool
class_eq small small = true
class_eq medium medium = true
class_eq large large = true
class_eq _ _ = false

-- The list for objects of `size` bytes.
unfoldable pub slob_list : ℕ → Class
slob_list size =
    if ltb size slob_break1 then small else if ltb size slob_break2 then medium else large

abbrev pub virt_to_page : Ptr → ℕ
virt_to_page b = b / page_units

-- A page stands on one list at most.
unfoldable pub remove : ℕ → List ℕ → List ℕ
remove n [] = []
remove n (k ∷ ks) = let rest = remove n ks in if k == n then rest else k ∷ rest

unfoldable pub set_slob_page_free : Slob → ℕ → Class → Slob
set_slob_page_free s n c = record s {
  page = update s.page n (record (s.page n) { slob_free = true });
  pages = λ d. if class_eq d c then n ∷ s.pages d else s.pages d;
}

unfoldable pub clear_slob_page_free : Slob → ℕ → Slob
unfolding remove
clear_slob_page_free s n = record s {
  page = update s.page n (record (s.page n) { slob_free = false });
  pages = λ d. remove n (s.pages d);
}

-- What `slob_page_alloc` does to the page once a block is found.
unfoldable pub take_units : Slob → ℕ → ℕ → Mem → Ptr → Slob
take_units s n units m fl =
    let sp = s.page n in
    let left = sp.units - units in
    let s₁ = record s {
      mem = m;
      page = update s.page n (record sp { units = left; freelist = fl });
    } in
    if left == 0 then clear_slob_page_free s₁ n else s₁

-- The pages `front` and those behind them, beginning with the latter if there are any.
unfoldable pub turn : List ℕ → List ℕ → List ℕ
turn front [] = front
turn front (b ∷ bs) = (b ∷ bs) ++ front

-- `list_move_tail(slob_list, prev->next)`, where `prev` stands behind `i` pages, or is the list
-- itself if `i` is 0: the list begins at what follows `prev`, unless `prev` is the last entry or that
-- follower is the first one already.
unfoldable pub rotate : ℕ → List ℕ → List ℕ
unfolding turn
rotate i ks = turn (take i ks) (drop i ks)

-- A pointer as a caller holds it: NULL, ZERO_SIZE_PTR, or an address in units.
pub data Pointer : Type 0 where
  nil : Pointer
  zero_size : Pointer
  at : Ptr → Pointer

-- `memset(b, 0, size)`: whole units, and the low byte of the last one where `size` is odd.
unfoldable pub clear : Mem → Ptr → ℕ → Mem
unfolding to_idx
clear m b size q =
    let w = (pos_part (m q) + 2 ^ 16 - neg_part (m q)) % 2 ^ 16 in
    if leb b q && ltb q (b + size / 2)
    then pos 0
    else (if (q == b + size / 2) && (size % 2 == 1) then to_idx (pos (w / 256 * 256)) else m q)

-- The page belongs to another node than the one asked for; `none` is NUMA_NO_NODE.
abbrev pub wrong_node : Option ℕ → ℕ → Bool
wrong_node none nid = false
wrong_node (some wanted) nid = not (nid == wanted)

-- A page from the page allocator becomes one free block.
unfoldable pub new_page : Slob → ℕ → Class → Slob
new_page s n c =
    let b = base n in
    set_slob_page_free
      (record s {
        mem = set_slob s.mem b page_units (b + page_units);
        page =
            update s.page n (record (s.page n) { units = page_units; freelist = b; slab = true });
      })
      n c

-- __GFP_ZERO clears the block.
unfoldable pub zeroed : Bool → ℕ → Run (Pointer × Slob) → Run (Pointer × Slob)
zeroed true size (ok (at b, s)) = ok (at b, record s { mem = clear s.mem b size })
zeroed true size (ok (nil, s)) = ok (nil, s)
zeroed true size (ok (zero_size, s)) = ok (zero_size, s)
zeroed true size bug = bug
zeroed true size stuck = stuck
zeroed false size r = r

module _ (K : Align) where
  -- The walk over a list of partially free pages; `i` pages are passed.
  unfoldable pub search_pages :
      Slob → ℕ → ℕ → Option ℕ → Class → ℕ → List ℕ → Run (Option (Ptr × Slob))
  search_pages s size align wanted c i [] = ok none
  search_pages s size align wanted c i (sp ∷ ks) =
      let go_on = search_pages s size align wanted c (i + 1) ks in
      let found = λ (b : Ptr) (m : Mem) (fl : Ptr).
        let s₁ = take_units s sp (units_of size) m fl in
        record s₁ { pages = λ d. if class_eq d c then rotate i (s₁.pages d) else s₁.pages d } in
      let page = s.page sp in
      if wrong_node wanted page.nid || ltb page.units (units_of size)
      then go_on
      else elim (page_scan K s.mem page.freelist (units_of size) align) [
        | out_of_fuel ↦ stuck
        | null ↦ go_on
        | got b m fl ↦ ok (some (b, found b m fl))
      ]

  -- The allocation from a new page; `fresh` is what `alloc_pages` returns.
  unfoldable pub alloc_new : Slob → ℕ → ℕ → Option ℕ → Run (Pointer × Slob)
  alloc_new s size align none = ok (nil, s)
  alloc_new s size align (some n) =
      let s₁ = new_page s n (slob_list size) in
      elim (page_scan K s₁.mem (base n) (units_of size) align) [
        | out_of_fuel ↦ stuck
        | null ↦ bug
        | got b m fl ↦ ok (at b, take_units s₁ n (units_of size) m fl)
      ]

  -- `slob_alloc`: entry point into the slob allocator.
  unfoldable pub slob_alloc :
      Slob → (size : ℕ) → (clean : Bool) → (align : ℕ) → Option ℕ → Option ℕ → Run (Pointer × Slob)
  slob_alloc s size clean align wanted fresh =
      let c = slob_list size in
      let served : Run (Pointer × Slob) = elim (search_pages s size align wanted c 0 (s.pages c)) [
        | ok (some (b, s')) ↦ ok (at b, s')
        | ok none ↦ alloc_new s size align fresh
        | bug ↦ bug
        | stuck ↦ stuck
      ] in
      zeroed clean size served

-- `slob_free_pages`
unfoldable pub slob_free_pages : Slob → ℕ → ℕ → Slob
slob_free_pages s n order = record s { returned = (n, order) ∷ s.returned }

-- The page becomes partially free.
unfoldable pub first_free : Slob → ℕ → Ptr → ℕ → ℕ → Slob
first_free s n b units size =
    set_slob_page_free
      (record s {
        mem = set_slob s.mem b units (page_base (b + page_units));
        page = update s.page n (record (s.page n) { units = units; freelist = b });
      })
      n (slob_list size)

-- The page is wholly free: it goes to the page allocator.
unfoldable pub release_page : Slob → ℕ → Slob
release_page s n =
    let s₁ = if (s.page n).slob_free then clear_slob_page_free s n else s in
    let s₂ = record s₁ { page = update s₁.page n (record (s₁.page n) { slab = false }) } in
    slob_free_pages s₂ n 0

-- The reinsertion into a partially free page.
unfoldable pub reinsert : Slob → ℕ → Ptr → ℕ → Run Slob
reinsert s n b units =
    let sp = s.page n in
    elim (page_free s.mem sp.freelist b units) [
      | none ↦ stuck
      | some (m, fl) ↦ ok (record s {
        mem = m;
        page = update s.page n (record sp { units = sp.units + units; freelist = fl });
      })
    ]

-- `slob_free`: entry point into the slob allocator.
unfoldable pub slob_free : Slob → Pointer → ℕ → Run Slob
slob_free s nil size = ok s
slob_free s zero_size size = ok s
slob_free s (at b) size =
    let n = virt_to_page b in
    let sp = s.page n in
    let units = units_of size in
    if size == 0
    then bug
    else (if sp.units + units == page_units
        then ok (release_page s n)
        else (if not sp.slob_free then ok (first_free s n b units size) else reinsert s n b units))
