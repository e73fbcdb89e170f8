-- ===== src/Slob/Front/Kfree.antt =====
-- kfree gives back what kmalloc took, and ksize tells what may be used.
use native.Mathlib.Decide.{dec_lt}
use my_posts.Prelude.{
  ℕ, ◌+◌, ◌-◌, ◌/◌, ◌%◌, ◌≤◌, ◌<◌, ◌≡◌, ◌≢◌, refl, sym, ◌∙◌, ◌⊎◌, inl, inr, ◌↔◌, List, [], ◌∷◌,
  arith, ◌==◌, Bool-cases, eq_self,
}
use my_posts.Slob.Block.{slob_unit, units_of, page_units, Ptr, base}
use my_posts.Slob.FreeList.{Block, Ordered, Free, Free_bounds, total}
use my_posts.Slob.Insert.{insert}
use my_posts.Slob.Insert.Laws.{Taken, insert-Free}
use my_posts.Slob.State.{Slob, virt_to_page, update, Run, ok, at, slob_free}
use my_posts.Slob.Model.{Holds}
use my_posts.Slob.Free.{Freed, SlobFreed, slob_free-SlobFreed}
use my_posts.Slob.Front.{Arch, kfree}
use my_posts.Slob.Front.Kmalloc.{Object}

-- What freeing an object leaves: the units that were free before it was allocated.
pub record Returned (F : ℕ → List Block) (n : ℕ) (bs : List Block) (s' : Slob) (r : Run Slob)
    : Type 0 where
  pub state : Slob
  pub result : r ≡ ok state
  pub after : ℕ → List Block
  pub holds : Holds state after
  pub others : (k : ℕ) → k ≢ n → after k ≡ F k
  pub partly :
      total bs ≢ page_units
      → (state.returned ≡ s'.returned) × ((x : Ptr) → Free x (after n) ↔ Free x bs)
  pub wholly : total bs ≡ page_units → state.returned ≡ (n, 0) ∷ s'.returned

module _ (A : Arch) (F : ℕ → List Block) (n size : ℕ) (bs : List Block) (p : Ptr) (s' : Slob)
    (even : A.minalign % 2 ≡ 0) (sized : 1 ≤ size) (ordered : Ordered n (base n) bs)
    (o : Object A.minalign F n size bs p s') where
  last_bound : o.block + units_of (size + A.minalign) ≤ base n + page_units
  last_bound =
      let t = o.allocated.takes in
      let f = t.was_free (o.block + units_of (size + A.minalign) - 1) (omega arith) (omega arith) in
      omega (arith, Free_bounds n (base n) _ bs ordered f)

  in_page :
      (virt_to_page p ≡ n) × (virt_to_page o.block ≡ n) × (p - A.minalign / slob_unit ≡ o.block)
  in_page = let l = last_bound in let g = o.allocated.takes.from in let b = o.behind in omega arith

  not_free : Taken o.block (units_of (size + A.minalign)) o.allocated.left
  not_free x h k f = ground (arith, ((o.allocated.takes.leaves x).0 f).1)

  -- Inserting the units again gives what was free before.
  Free-again :
      (x : Ptr)
      → Free x (insert o.block (units_of (size + A.minalign)) o.allocated.left) ↔ Free x bs
  Free-again x =
      let i = insert-Free n o.block (units_of (size + A.minalign)) x o.allocated.left in
      (λ f. there (i.0 f), λ f. i.1 (back f))
    where
      there :
          ((o.block ≤ x) × (x < o.block + units_of (size + A.minalign))) ⊎ Free x o.allocated.left
          → Free x bs
      there (inl h) = o.allocated.takes.was_free x h.0 h.1
      there (inr h) = ((o.allocated.takes.leaves x).0 h).0

      back :
          Free x bs
          → ((o.block ≤ x) × (x < o.block + units_of (size + A.minalign))) ⊎ Free x o.allocated.left
      back f = elim (dec_lt x o.block) [
        | yes l ↦ inr ((o.allocated.takes.leaves x).1 (f, inl l))
        | no l ↦ elim (dec_lt x (o.block + units_of (size + A.minalign))) [
          | yes k ↦ inl (omega arith, k)
          | no k ↦ inr ((o.allocated.takes.leaves x).1 (f, inr (omega arith)))
        ]
      ]

  freed :
      SlobFreed s'
        (update F n o.allocated.left)
        o.block
        (size + A.minalign)
        (slob_free s' (at o.block) (size + A.minalign))
  freed =
      let e = in_page.1 in
      let u = units_of (size + A.minalign) in
      slob_free-SlobFreed s' (update F n o.allocated.left) o.block (size + A.minalign)
        o.allocated.holds (rw e o.allocated.slab) (omega arith) (rw e last_bound)
        (rw (e, eq_self n) not_free)

  units_back : total (update F n o.allocated.left n) + units_of (size + A.minalign) ≡ total bs
  units_back = rw (eq_self n) o.allocated.takes.counted

  freed_here :
      Freed s' (update F n o.allocated.left) n o.block (units_of (size + A.minalign)) freed.state
  freed_here = rw in_page.1 at freed.freed

  Returned-wholly : total bs ≡ page_units → Returned F n bs s' (ok freed.state)
  Returned-wholly e =
      let w = freed_here.wholly (units_back ∙ e) in
      record {
        state = freed.state;
        result = refl;
        after = update (update F n o.allocated.left) n [];
        holds = w.0;
        others = λ k ne. ground arith;
        partly = λ x. absurd (x e);
        wholly = λ _. w.1;
      }

  Returned-partly : total bs ≢ page_units → Returned F n bs s' (ok freed.state)
  Returned-partly ne =
      let u = units_of (size + A.minalign) in
      let left = o.allocated.left in
      let w = freed_here.partly (λ e. ne (sym units_back ∙ e)) in
      record {
        state = freed.state;
        result = refl;
        after = update (update F n left) n (insert o.block u left);
        holds = rw (eq_self n) at w.0;
        others = λ k ne. ground arith;
        partly = λ x. (w.1, λ y. rw (eq_self n) (Free-again y));
        wholly = λ e. absurd (ne e);
      }

  -- kfree of an object that kmalloc returned ends without a failed BUG_ON, and makes free exactly the
  -- units of this page that were free before the allocation, if any of the page's units were in use
  -- then; if none was, the page goes back to the page allocator. No other page changes.
  pub kfree-Returned : Returned F n bs s' (kfree A s' (at p))
  unfolding kfree
  kfree-Returned =
      let (e₀, e₁, e₂) = in_page in
      rw (e₀, e₂, o.allocated.slab, o.header)
        (rw freed.result (elim (Bool-cases (total bs == page_units)) [
          | inl e ↦ Returned-wholly (ground arith)
          | inr e ↦ Returned-partly (ground arith)
        ]))
