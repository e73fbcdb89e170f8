-- ===== src/Slob/Alloc/Search.antt =====
-- The walk over a list of partially free pages.
use mathlib.Core.Path.{subst}
use my_posts.Prelude.{
  ℕ, ◌+◌, ◌%◌, ◌≤◌, ◌<◌, ◌≡◌, ◌∙◌, inl, inr, true, false, ◌||◌, Option, none, some, List, [], ◌∷◌,
  arith, ltb, ◌==◌, Bool-cases, ==_iff, eq_self, if◌then◌else◌, has,
}
use my_posts.Slob.Block.{units_of, Ptr, Mem, base}
use my_posts.Slob.FreeList.{Block, Ordered, total}
use my_posts.Slob.PageAlloc.{Align}
use my_posts.Slob.FirstFit.Sound.{Takes}
use my_posts.Slob.FirstFit.Complete.{IsAligned, Run, run_in_block}
use my_posts.Slob.State.{
  Slob, Class, class_eq, update, take_units, wrong_node, rotate, search_pages, ok, bug, stuck,
}
use my_posts.Slob.State
use my_posts.Slob.Model.{Listed, PageHolds, Holds, has-rotate}
use my_posts.Slob.Alloc.OnePage.{NoRun, page_scan_result, take_units-Holds, slab-take_units}

-- A block of `units` units was taken out of the free blocks `bs` of page `n`.
pub record Allocated (F : ℕ → List Block) (n units align : ℕ) (bs : List Block) (b : Ptr)
    (s' : Slob) : Type 0 where
  pub left : List Block
  pub takes : Takes n units (base n) bs b left
  pub aligned : IsAligned align b
  pub holds : Holds s' (update F n left)
  pub slab : (s'.page n).slab ≡ true

-- A run of free units is no longer than what is free.
run-le-total :
    (K : Align) (align : ℕ) (even : align % 2 ≡ 0) (n lo units p : ℕ) (bs : List Block)
    → 1 ≤ units
    → Ordered n lo bs
    → Run units p bs
    → units ≤ total bs
run-le-total K align even n lo units p [] u o r = absurd (r p (omega arith) (omega arith))
run-le-total K align even n lo units p ((a, s) ∷ bs) u o r =
    elim (run_in_block K align even n lo a s units p bs u o r) [
      | inl h ↦ omega arith
      | inr q ↦ omega (arith, run-le-total K align even n (a + s + 1) units p bs u o.2 q)
    ]

-- The state after a hit differs by the order of one list.
Holds-rotate :
    (s : Slob) (F : ℕ → List Block) (c : Class) (i : ℕ)
    → Holds s F
    → Holds (record s { pages = λ d. if class_eq d c then rotate i (s.pages d) else s.pages d }) F
Holds-rotate s F c i h = record {
  pages = h.pages;
  flagged = λ d n x. h.flagged d n (elim (Bool-cases (class_eq d c)) [
    | inl e ↦ has-rotate i n (s.pages d) (rw e at x)
    | inr e ↦ rw e at x
  ]);
}

Listed-of-flag :
    (m : Mem) (sp : State.Page) (n : ℕ) (bs : List Block)
    → PageHolds m sp n bs
    → sp.slob_free ≡ true
    → Listed m sp n bs
Listed-of-flag m sp n bs (inl l) e = l
Listed-of-flag m sp n bs (inr u) e = absurd (ground (arith, u.flag))

module _ (K : Align) (s : Slob) (F : ℕ → List Block) (size align : ℕ) (nid : Option ℕ) (c : Class)
    (even : align % 2 ≡ 0) (sized : 1 ≤ size) (h : Holds s F) where
  -- How a walk over `ks` ends: with a block of one of these pages, or with none, and then no page
  -- of the right node has an aligned run of free units that is long enough.
  abbrev pub Searched : List ℕ → State.Run (Option (Ptr × Slob)) → Type 0
  Searched ks (ok none) =
      (n : ℕ)
      → has n ks ≡ true
      → wrong_node nid (s.page n).nid ≡ false
      → NoRun (units_of size) align (F n)
  Searched ks (ok (some (b, s'))) =
      (n : ℕ) × (has n ks ≡ true)
      × (wrong_node nid (s.page n).nid ≡ false)
      × Allocated F n (units_of size) align (F n) b s'
  Searched ks bug = ⊥
  Searched ks stuck = ⊥

  Searched-cons :
      (k : ℕ) (ks : List ℕ) (r : State.Run (Option (Ptr × Slob)))
      → (wrong_node nid (s.page k).nid ≡ false → NoRun (units_of size) align (F k))
      → Searched ks r
      → Searched (k ∷ ks) r
  Searched-cons k ks (ok none) no_run none_behind = λ n x node p al run.
      elim (Bool-cases (k == n)) [
        | inl e ↦
            subst (λ j. wrong_node nid (s.page j).nid ≡ false → NoRun (units_of size) align (F j))
              ((==_iff k n).0 e) no_run node p al run
        | inr e ↦ none_behind n (ground arith) node p al run
      ]
  Searched-cons k ks (ok (some (b, s'))) no_run (n, x, y, a) = (n, ground arith, y, a)
  Searched-cons k ks bug no_run r = r
  Searched-cons k ks stuck no_run r = r

  pub search_pages-Searched :
      (i : ℕ) (ks : List ℕ)
      → ((n : ℕ) → has n ks ≡ true → (s.page n).slob_free ≡ true)
      → Searched ks (search_pages K s size align nid c i ks)
  unfolding search_pages
  search_pages-Searched i [] fl = λ n x. absurd (ground arith)
  search_pages-Searched i (k ∷ ks) fl =
      let sp = s.page k in
      let l = Listed-of-flag s.mem sp k (F k) (h.pages k) (fl k (ground (arith, eq_self k))) in
      let behind = search_pages-Searched (i + 1) ks (λ n x. fl n (ground arith)) in
      let u : 1 ≤ units_of size = omega arith in
      elim (Bool-cases (wrong_node nid sp.nid || ltb sp.units (units_of size))) [
        | inl skip ↦ rw skip (
            Searched-cons k ks _
              (λ node p al run.
                let few : sp.units < units_of size = ground arith in
                omega (
                  arith,
                  run-le-total K align even k (base k) (units_of size) p (F k) u l.ordered run,
                  l.counts,
                ))
              behind)
        | inr look ↦
            elim (page_scan_result K s.mem k (units_of size) align (F k) even u l.some_free
              l.encodes l.ordered) [
                | inl miss ↦ rw (look, l.starts, miss.0) (Searched-cons k ks _ (λ _. miss.1) behind)
                | inr g ↦
                    rw (look, l.starts, g.result)
                      (
                        k,
                        ground (arith, eq_self k),
                        ground arith,
                        record {
                          left = g.left;
                          takes = g.takes;
                          aligned = g.aligned;
                          holds =
                              Holds-rotate _ _ c i
                                (take_units-Holds s F k (units_of size) align (F k) _ h l g);
                          slab = slab-take_units s k (units_of size) g.mem g.freelist ∙ l.slab;
                        },
                      )
              ]
      ]
