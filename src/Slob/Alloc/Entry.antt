-- ===== src/Slob/Alloc/Entry.antt =====
-- The whole of `slob_alloc`.
use mathlib.Core.Path.{subst, fun_ext}
use native.Mathlib.Nat.{div-add-mod', mul-mod_left}
use my_posts.Prelude.{
  ℕ, ◌+◌, ◌*◌, ◌/◌, ◌%◌, ◌≤◌, ◌≡◌, refl, ◌∙◌, ◌⊎◌, inl, inr, Bool, true, false, Option, none, some,
  List, [], ◌∷◌, arith, ap, eq_self, has,
}
use my_posts.Slob.Block.{
  page_size, page_units, slob_unit, units_of, Ptr, base, Fits, set_slob-Header, set_slob_outside,
}
use my_posts.Slob.FreeList.{Block, Encodes}
use my_posts.Slob.PageAlloc.{Align}
use my_posts.Slob.FirstFit.Complete.{IsAligned}
use my_posts.Slob.State.{
  Slob, Class, slob_list, update, Pointer, nil, zero_size, at, wrong_node, set_slob_page_free,
  new_page, alloc_new, zeroed, slob_alloc, ok, bug, stuck, Run,
}
use my_posts.Slob.Model.{Listed, Holds, Holds-update, Holds-Ordered, has-add}
use my_posts.Slob.Alloc.OnePage.{NoRun, page_scan_result, take_units-Holds, slab-take_units}
use my_posts.Slob.Alloc.Search.{Allocated, Searched, search_pages-Searched}
use my_posts.Slob.Alloc.Zero.{Allocated-clear}

-- The free list of a page of which nothing is allocated.
abbrev pub whole : ℕ → List Block
whole n = (base n, page_units) ∷ []

module _ (s : Slob) (n : ℕ) (c : Class) where
  placed : Fits n (base n) page_units (base n + page_units)
  placed = omega arith

  whole-Encodes : Encodes (new_page s n c).mem n (whole n)
  unfolding new_page set_slob_page_free
  whole-Encodes = (set_slob-Header s.mem n (base n) page_units (base n + page_units) placed, tt)

  new_page-Listed : Listed (new_page s n c).mem ((new_page s n c).page n) n (whole n)
  unfolding new_page set_slob_page_free
  new_page-Listed = rw (eq_self n) (record {
    flag = refl;
    slab = refl;
    some_free = λ e. ground arith;
    starts = refl;
    counts = omega arith;
    encodes = whole-Encodes;
    ordered = omega arith;
  })

  new_page-Holds : (F : ℕ → List Block) → Holds s F → Holds (new_page s n c) (update F n (whole n))
  unfolding new_page set_slob_page_free
  new_page-Holds F h =
      Holds-update s _ F n _ (whole n) h (λ k. ground (arith, eq_self n))
        (set_slob_outside s.mem n (base n) page_units (base n + page_units) placed)
        (λ d k x ne. has-add n k c d (s.pages d) x ne) (λ d x. new_page-Listed.flag)
        (inl new_page-Listed)

module _ (s : Slob) (F : ℕ → List Block) (size align : ℕ) (nid : Option ℕ) where
  -- No page on the list for this size, on the right node, has a run that is long enough.
  abbrev pub NoPage : Type 0
  NoPage =
      (n : ℕ)
      → has n (s.pages (slob_list size)) ≡ true
      → wrong_node nid (s.page n).nid ≡ false
      → NoRun (units_of size) align (F n)

module _ (s : Slob) (F : ℕ → List Block) (size align : ℕ) (nid fresh : Option ℕ) where
  -- What `slob_alloc` may return: a block of a page on its list; where there is none, a block of the
  -- new page; NULL, with the state as it was, where there is no new page either.
  abbrev pub Served : Run (Pointer × Slob) → Type 0
  Served (ok (at b, s')) =
      ((n : ℕ) × (has n (s.pages (slob_list size)) ≡ true)
        × (wrong_node nid (s.page n).nid ≡ false)
        × Allocated F n (units_of size) align (F n) b s')
      ⊎ ((n : ℕ) × (fresh ≡ some n)
          × NoPage s F size align nid
          × Allocated F n (units_of size) align (whole n) b s')
  Served (ok (nil, s')) = (fresh ≡ none) × NoPage s F size align nid × (s' ≡ s)
  Served (ok (zero_size, s')) = ⊥
  Served bug = ⊥
  Served stuck = ⊥

module _ (K : Align) (s : Slob) (F : ℕ → List Block) (size align : ℕ) (nid fresh : Option ℕ)
    (even : align % 2 ≡ 0) (divides : IsAligned align page_units) (sized : 1 ≤ size)
    (fits : size ≤ page_size) (h : Holds s F) where
  page-IsAligned : (n : ℕ) → IsAligned align page_units → IsAligned align (base n)
  page-IsAligned n (inl z) = inl z
  page-IsAligned n (inr d) =
      let e : base n * slob_unit ≡ n * (page_size / align) * align =
        omega
          (arith, ap (λ (t : ℕ). n * t) (div-add-mod' page_size align), ap (λ (t : ℕ). n * t) d) in
      inr (rw e (mul-mod_left (n * (page_size / align)) align))

  -- A new page has room.
  whole-run : (n : ℕ) → NoRun (units_of size) align (whole n) → ⊥
  whole-run n no_run = no_run (base n) (page-IsAligned n divides) (λ x p q. inl (omega arith))

  Holds-same :
      (s' : Slob) (n : ℕ) (bs left : List Block)
      → Holds s' (update (update F n bs) n left)
      → Holds s' (update F n left)
  Holds-same s' n bs left a = subst (Holds s') (fun_ext λ k. ground arith) a

  alloc_new-Served :
      NoPage s F size align nid
      → (f : Option ℕ) → fresh ≡ f
      → Served s F size align nid fresh (alloc_new K s size align f)
  unfolding alloc_new
  alloc_new-Served none_left none e = (e, none_left, refl)
  alloc_new-Served none_left (some n) e =
      let s₁ = new_page s n (slob_list size) in
      let h₁ = new_page-Holds s n (slob_list size) F h in
      let l = new_page-Listed s n (slob_list size) in
      elim (page_scan_result K s₁.mem n (units_of size) align (whole n) even (omega arith)
        l.some_free l.encodes l.ordered) [
          | inl miss ↦ absurd (whole-run n miss.1)
          | inr g ↦
              rw (g.result, Served, alloc_new)
                (inr (
                  n,
                  e,
                  none_left,
                  record {
                    left = g.left;
                    takes = g.takes;
                    aligned = g.aligned;
                    holds = Holds-same _ n (whole n) g.left (
                        take_units-Holds s₁ (update F n (whole n)) n (units_of size) align (whole n)
                          _ h₁ l g);
                    slab = slab-take_units s₁ n (units_of size) g.mem g.freelist ∙ l.slab;
                  },
                ))
        ]

  zeroed-Served :
      (clean : Bool) (r : Run (Pointer × Slob))
      → Served s F size align nid fresh r
      → Served s F size align nid fresh (zeroed clean size r)
  unfolding zeroed
  zeroed-Served true (ok (at b, s')) (inl (n, x, y, a)) =
      inl (n, x, y, Allocated-clear F n size align (F n) b s' sized (Holds-Ordered s F n h) a)
  zeroed-Served true (ok (at b, s')) (inr (n, x, none_left, a)) =
      inr (n, x, none_left, Allocated-clear F n size align (whole n) b s' sized (omega arith) a)
  zeroed-Served true (ok (nil, s')) v = v
  zeroed-Served true (ok (zero_size, s')) v = v
  zeroed-Served true bug v = v
  zeroed-Served true stuck v = v
  zeroed-Served false r v = v

  Searched-Served :
      (r : Run (Option (Ptr × Slob)))
      → Searched K s F size align nid (slob_list size) even sized h (s.pages (slob_list size)) r
      → Served s F size align nid fresh (elim r [
        | ok (some (b, s')) ↦ ok (at b, s')
        | ok none ↦ alloc_new K s size align fresh
        | bug ↦ bug
        | stuck ↦ stuck
      ])
  Searched-Served (ok none) v = alloc_new-Served v fresh refl
  Searched-Served (ok (some (b, s'))) v = inl v
  Searched-Served bug v = v
  Searched-Served stuck v = v

  -- `slob_alloc` of 1 to PAGE_SIZE bytes, at an alignment that is even or absent and that divides
  -- PAGE_SIZE, ends without a failed BUG_ON. It returns aligned units that were free and takes just
  -- these out of the free blocks of their page, changing no other page's; a new page is used only
  -- where no page on the list for this size, on the node asked for, has an aligned run of free units
  -- that is long enough, and NULL is returned, with the state unchanged, only where there is no new
  -- page either.
  pub slob_alloc-Served :
      (clean : Bool) → Served s F size align nid fresh (slob_alloc K s size clean align nid fresh)
  unfolding slob_alloc
  slob_alloc-Served clean = zeroed-Served clean _ (
      Searched-Served _ (
        search_pages-Searched K s F size align nid (slob_list size) even sized h 0
          (s.pages (slob_list size)) (h.flagged (slob_list size))))
