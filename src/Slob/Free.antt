-- ===== src/Slob/Free.antt =====
-- `slob_free` against the abstract view.
use my_posts.Prelude.{
  ℕ, ◌+◌, ◌≤◌, ◌≡◌, ◌≢◌, refl, inl, inr, true, false, List, [], ◌∷◌, arith, ap, ◌==◌, Bool-cases,
  eq_self,
}
use my_posts.Slob.Block.{
  page_units, units_of, base, page_base, Fits, set_slob-Header, set_slob_outside,
}
use my_posts.Slob.FreeList.{Block, first, total}
use my_posts.Slob.Insert.{insert}
use my_posts.Slob.Insert.Laws.{Taken, insert-Ordered, total-insert}
use my_posts.Slob.PageFree.Refine.{page_free-PageFreed}
use my_posts.Slob.State.{
  Slob, slob_list, virt_to_page, update, Run, ok, at, set_slob_page_free, clear_slob_page_free,
  slob_free_pages, first_free, release_page, reinsert, slob_free,
}
use my_posts.Slob.Model.{Listed, Unlisted, PageHolds, Holds, Holds-update, has-add, has-remove}

-- What freeing `units` units at `b` in page `n` does: the units join the page's free blocks, or the
-- page goes to the page allocator if they are its last ones.
pub record Freed (s : Slob) (F : ℕ → List Block) (n b units : ℕ) (s' : Slob) : Type 0 where
  pub partly :
      total (F n) + units ≢ page_units
      → Holds s' (update F n (insert b units (F n))) × (s'.returned ≡ s.returned)
  pub wholly :
      total (F n) + units ≡ page_units
      → Holds s' (update F n []) × (s'.returned ≡ (n, 0) ∷ s.returned) × ((s'.page n).slab ≡ false)

module _ (s : Slob) (F : ℕ → List Block) (n b units size : ℕ) (h : Holds s F)
    (slab : (s.page n).slab ≡ true) (some_units : 1 ≤ units) (inside : base n ≤ b)
    (ends : b + units ≤ base n + page_units) (taken : Taken b units (F n)) where
  -- The page's count is that of its free units.
  counts : (s.page n).units ≡ total (F n)
  counts = go (h.pages n)
    where
      go : PageHolds s.mem (s.page n) n (F n) → (s.page n).units ≡ total (F n)
      go (inl l) = l.counts
      go (inr u) = rw (u.full slab, u.nothing)

  release_page-Holds : Holds (release_page s n) (update F n [])
  unfolding release_page clear_slob_page_free slob_free_pages
  release_page-Holds = elim (Bool-cases (s.page n).slob_free) [
    | inl e ↦ rw e (
        Holds-update s _ F n (record (s.page n) { slob_free = false; slab = false }) [] h
          (λ k. ground (arith, eq_self n)) (λ q far. refl)
          (λ c k x ne. (has-remove n k (s.pages c) x).0)
          (λ c x. absurd ((has-remove n n (s.pages c) x).1 refl))
          (inr (record { flag = refl; nothing = refl; full = λ t. ground arith })))
    | inr e ↦ rw e (
        Holds-update s _ F n (record (s.page n) { slab = false }) [] h
          (λ k. ground (arith, eq_self n)) (λ q far. refl) (λ c k x ne. x) (λ c x. h.flagged c n x)
          (inr (record { flag = e; nothing = refl; full = λ t. ground arith })))
  ]

  release_page-returned :
      ((release_page s n).returned ≡ (n, 0) ∷ s.returned)
      × (((release_page s n).page n).slab ≡ false)
  unfolding release_page clear_slob_page_free slob_free_pages
  release_page-returned = elim (Bool-cases (s.page n).slob_free) [
    | inl e ↦ rw (e, eq_self n) (refl, refl)
    | inr e ↦ rw (e, eq_self n) (refl, refl)
  ]

  first_free-Holds :
      Unlisted (s.page n) (F n)
      → Holds (first_free s n b units size) (update F n (insert b units (F n)))
        × ((first_free s n b units size).returned ≡ s.returned)
  unfolding first_free set_slob_page_free insert
  first_free-Holds u =
      let f : Fits n b units (base n + page_units) = omega arith in
      let e : page_base (b + page_units) ≡ base n + page_units = omega arith in
      rw (u.nothing, e)
        (
          Holds-update s _ F n (record (s.page n) { units = units; freelist = b; slob_free = true })
              ((b, units) ∷ []) h (λ k. ground (arith, eq_self n))
              (λ q far. set_slob_outside s.mem n b units (base n + page_units) f q (ground arith))
              (λ d k x ne. has-add n k (slob_list size) d (s.pages d) x ne) (λ d x. refl)
              (inl (record {
                flag = refl;
                slab = slab;
                some_free = λ x. ground arith;
                starts = refl;
                counts = omega arith;
                encodes = (set_slob-Header s.mem n b units (base n + page_units) f, tt);
                ordered = omega arith;
              })),
          refl,
        )

  -- What the reinsertion ends with.
  record Reinserted (r : Run Slob) : Type 0 where
    state : Slob
    result : r ≡ ok state
    holds : Holds state (update F n (insert b units (F n)))
    returned : state.returned ≡ s.returned

  reinsert-Reinserted : Listed s.mem (s.page n) n (F n) → Reinserted (reinsert s n b units)
  unfolding reinsert
  reinsert-Reinserted l =
      let p =
        page_free-PageFreed s.mem n b units (F n) some_units inside ends l.some_free l.ordered
          l.encodes taken in
      let t = total-insert n b units (F n) in
      let new = insert b units (F n) in
      record {
        state = record s {
          mem = p.mem;
          page =
              update s.page n
                (record (s.page n) { units = (s.page n).units + units; freelist = first n new });
        };
        result = rw (reinsert, l.starts, p.result);
        holds =
            Holds-update s _ F n _ new h (λ k. refl) p.holds.same (λ c k x ne. x) (λ c x. l.flag)
              (inl (record {
                flag = l.flag;
                slab = slab;
                some_free = λ e. omega (arith, ap total e, t);
                starts = refl;
                counts = omega (arith, t, l.counts);
                encodes = p.holds.encodes;
                ordered =
                    insert-Ordered n (base n) b units (F n) inside some_units ends taken l.ordered;
              }));
        returned = refl;
      }

-- What `slob_free` of `size` bytes at `b` ends with.
pub record SlobFreed (s : Slob) (F : ℕ → List Block) (b size : ℕ) (r : Run Slob) : Type 0 where
  pub state : Slob
  pub result : r ≡ ok state
  pub freed : Freed s F (virt_to_page b) b (units_of size) state

-- `slob_free` of a block in a page of the allocator, none of whose units is free, ends without a
-- failed BUG_ON. The units join the page's free blocks, in address order and joined with the blocks
-- that they touch, and no other page changes; if they are the last allocated units of the page, the
-- page leaves the allocator and is returned to the page allocator instead.
pub slob_free-SlobFreed :
    (s : Slob) (F : ℕ → List Block) (b size : ℕ)
    → Holds s F
    → (s.page (virt_to_page b)).slab ≡ true
    → 1 ≤ size
    → b + units_of size ≤ base (virt_to_page b) + page_units
    → Taken b (units_of size) (F (virt_to_page b))
    → SlobFreed s F b size (slob_free s (at b) size)
unfolding slob_free
slob_free-SlobFreed s F b size h slab sized ends taken =
    let n = virt_to_page b in
    let sp = s.page n in
    let units = units_of size in
    let c = counts s F n b units size h slab (omega arith) (omega arith) ends taken in
    let whole =
      release_page-Holds s F n b units size h slab (omega arith) (omega arith) ends taken in
    let back =
      release_page-returned s F n b units size h slab (omega arith) (omega arith) ends taken in
    let ne : (size == 0) ≡ false = ground arith in
    elim (Bool-cases (sp.units + units == page_units)) [
      | inl e ↦
          rw (ne, e)
            (record {
              state = release_page s n;
              result = refl;
              freed = record {
                partly = λ x. absurd (x (ground arith));
                wholly = λ x. (whole, back.0, back.1);
              };
            })
      | inr e ↦
          rw (ne, e)
            (elim (h.pages n) [
              | inl l ↦
                  let r =
                    reinsert-Reinserted s F n b units size h slab (omega arith) (omega arith) ends
                      taken l in
                  rw (l.flag, r.result)
                    (record {
                      state = r.state;
                      result = refl;
                      freed = record {
                        partly = λ x. (r.holds, r.returned);
                        wholly = λ x. absurd (ground arith);
                      };
                    })
              | inr u ↦
                  let r =
                    first_free-Holds s F n b units size h slab (omega arith) (omega arith) ends
                      taken u in
                  rw u.flag (record {
                    state = first_free s n b units size;
                    result = refl;
                    freed = record { partly = λ x. r; wholly = λ x. absurd (ground arith) };
                  })
            ])
    ]
