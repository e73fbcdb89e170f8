-- ===== src/DrmMm/Replace.antt =====
-- A node takes the place of another: drm_mm_replace_node.
use mathlib.Core.Path.{subst}
use my_posts.Prelude.{
  ℕ, ◌≡◌, ◌≢◌, refl, ap, sym, ◌∙◌, ◌⊎◌, inl, inr, Bool, true, false, not, Option, none, some, ◌&&◌,
  ◌||◌, ◌∷◌, map, arith, ◌==◌, Bool-cases, ne_eq, eq_self, has, if◌then◌else◌,
}
use my_posts.DrmMm.{Node, Mm, add, set_node, hole_start}
use my_posts.DrmMm.Layout.{IsValid, Chain}
use my_posts.DrmMm.Swap.{
  swap, IsAlike, Chain-map, has-swap-new, has-swap-old, has-swap-other, swap-Distinct,
}

-- What drm_mm_replace_node leaves.
unfoldable pub replaced : Mm → (old new : ℕ) → Mm
replaced mm old new =
    let o = mm.node old in
    let moved = record (mm.node new) {
      hole_follows = o.hole_follows;
      start = o.start;
      size = o.size;
      color = o.color;
      allocated = true;
    } in
    record mm {
      node = set_node (set_node mm.node old (record o { allocated = false })) new moved;
      nodes = map (swap old new) mm.nodes;
      holes = map (swap old new) mm.holes;
    }

-- `drm_mm_replace_node`; `deleted` says that the last call for the `hole_stack` of the old node was a list_del, which
-- leaves an entry that no call may use: `none` for the call of list_replace on it.
unfoldable pub replace_node : (deleted : Bool) → Mm → (old new : ℕ) → Option Mm
unfolding replaced
replace_node deleted mm old new =
    if deleted && not (has old mm.holes) then none else some (replaced mm old new)

-- What a replacement leaves.
pub record IsReplaced (mm : Mm) (lo hi old new : ℕ) (mm' : Mm) : Type 0 where
  pub valid : IsValid mm' lo hi
  pub gone : (has old mm'.nodes ≡ false) × ((mm'.node old).allocated ≡ false)
  pub come : (has new mm'.nodes ≡ true) × ((mm'.node new).allocated ≡ true)
  pub place :
      ((mm'.node new).start ≡ (mm.node old).start) × ((mm'.node new).size ≡ (mm.node old).size)
  pub others :
      (k : ℕ) → k ≢ old → k ≢ new → (mm'.node k ≡ mm.node k) × (has k mm'.nodes ≡ has k mm.nodes)

module _ (mm : Mm) (lo hi old new : ℕ) (v : IsValid mm lo hi) where
  node_of : (k : ℕ) → k ≢ old → k ≢ new → (replaced mm old new).node k ≡ mm.node k
  unfolding replaced
  node_of k a b = rw (ne_eq k new b, ne_eq k old a) refl

  of_new : IsAlike mm.node (replaced mm old new).node old new
  unfolding replaced
  of_new = record {
    start = rw (eq_self new) refl;
    size = rw (eq_self new) refl;
    flag = rw (eq_self new) refl;
  }

  new_allocated : ((replaced mm old new).node new).allocated ≡ true
  unfolding replaced
  new_allocated = rw (eq_self new) refl

  swapped : (k : ℕ) → k ≡ old → swap old new k ≡ new
  swapped k e = ap (λ b. if b then new else k) (ap (λ w. w == old) e ∙ eq_self old)

  unswapped : (k : ℕ) → k ≢ old → swap old new k ≡ k
  unswapped k a = ap (λ b. if b then new else k) (ne_eq k old a)

  alike : (k : ℕ) → k ≢ new → IsAlike mm.node (replaced mm old new).node k (swap old new k)
  alike k b =
      let f' = (replaced mm old new).node in
      elim (Bool-cases (k == old)) [
        | inl x ↦
            let e : k ≡ old = ground (arith, x) in
            subst (λ j. IsAlike mm.node f' k j) (sym (swapped k e))
              (subst (λ j. IsAlike mm.node f' j new) (sym e) of_new)
        | inr x ↦
            let a : k ≢ old = λ w. ground (arith, w, x) in
            let n = node_of k a b in
            subst (λ j. IsAlike mm.node f' k j) (sym (unswapped k a))
              (record {
                start = ap (λ (z : Node). z.start) n;
                size = ap (λ (z : Node). z.size) n;
                flag = ap (λ (z : Node). z.hole_follows) n;
              })
      ]

  still :
      (k : ℕ)
      → k ≢ new
      → (mm.node k).allocated ≡ true
      → ((replaced mm old new).node (swap old new k)).allocated ≡ true
  still k b e =
      let f' = (replaced mm old new).node in
      elim (Bool-cases (k == old)) [
        | inl x ↦ ap (λ j. (f' j).allocated) (swapped k (ground (arith, x))) ∙ new_allocated
        | inr x ↦
            let a : k ≢ old = λ w. ground (arith, w, x) in
            ap (λ j. (f' j).allocated) (unswapped k a)
            ∙ ap (λ (z : Node). z.allocated) (node_of k a b)
            ∙ e
      ]

  old_free : old ≢ new → ((replaced mm old new).node old).allocated ≡ false
  unfolding replaced
  old_free ne = rw (ne_eq old new ne, eq_self old) refl

  stacked :
      (h : ℕ)
      → has new mm.nodes ≡ false
      → has new mm.holes ≡ false
      → old ≢ new
      → 0 ≢ old
      → 0 ≢ new
      → has h (map (swap old new) mm.holes)
        ≡ (has h (0 ∷ map (swap old new) mm.nodes) && ((replaced mm old new).node h).hole_follows)
  stacked h fresh unstacked ne z_old z_new =
      let f' = (replaced mm old new).node in
      elim (Bool-cases (h == old)) [
        | inl x ↦
            let e : h ≡ old = ground (arith, x) in
            ap (λ k. has k (map (swap old new) mm.holes)) e
            ∙ has-swap-old old new mm.holes ne
            ∙ sym (
                ap (λ k. has k (0 ∷ map (swap old new) mm.nodes) && (f' h).hole_follows) e
                ∙ ap (λ w. (w || has old (map (swap old new) mm.nodes)) && (f' h).hole_follows)
                    (ne_eq 0 old z_old)
                ∙ ap (λ w. w && (f' h).hole_follows) (has-swap-old old new mm.nodes ne))
        | inr x ↦ elim (Bool-cases (h == new)) [
          | inl y ↦
              let e : h ≡ new = ground (arith, y) in
              let at_new : has new (0 ∷ map (swap old new) mm.nodes) ≡ has old (0 ∷ mm.nodes) =
                ap (λ w. w || has new (map (swap old new) mm.nodes)) (ne_eq 0 new z_new)
                ∙ has-swap-new old new mm.nodes fresh
                ∙ sym (ap (λ w. w || has old mm.nodes) (ne_eq 0 old z_old)) in
              ap (λ k. has k (map (swap old new) mm.holes)) e
              ∙ has-swap-new old new mm.holes unstacked
              ∙ v.on_stack old
              ∙ ap (λ w. has old (0 ∷ mm.nodes) && w) (sym of_new.flag)
              ∙ ap (λ w. w && (f' new).hole_follows) (sym at_new)
              ∙ ap (λ k. has k (0 ∷ map (swap old new) mm.nodes) && (f' k).hole_follows) (sym e)
          | inr y ↦
              let a : h ≢ old = λ w. ground (arith, w, x) in
              let b : h ≢ new = λ w. ground (arith, w, y) in
              has-swap-other old new h mm.holes a b
              ∙ v.on_stack h
              ∙ ap (λ w. ((0 == h) || w) && (mm.node h).hole_follows)
                  (sym (has-swap-other old new h mm.nodes a b))
              ∙ ap (λ (n : Node). has h (0 ∷ map (swap old new) mm.nodes) && n.hole_follows)
                  (sym (node_of h a b))
        ]
      ]

  replaced-IsReplaced :
      has old mm.nodes ≡ true
      → has new (0 ∷ mm.nodes) ≡ false
      → IsReplaced mm lo hi old new (replaced mm old new)
  unfolding replaced hole_start
  replaced-IsReplaced i out =
      let fresh : has new mm.nodes ≡ false = ground (arith, out) in
      let not_head : 0 ≢ new = λ w. ground (arith, out, w) in
      let old_new : old ≢ new =
        λ w. let z = ap (λ k. has k mm.nodes) w in ground (arith, z, i, fresh) in
      let head_old : 0 ≢ old = λ w.
        let z = ap (λ k. has k mm.nodes) w in let y = v.distinct.0 in ground (arith, z, i, y) in
      let unstacked : has new mm.holes ≡ false =
        v.on_stack new ∙ ap (λ b. b && (mm.node new).hole_follows) out in
      let mm' = replaced mm old new in
      let head : swap old new 0 ≡ 0 = ap (λ b. if b then new else 0) (ne_eq 0 old head_old) in
      let at_head = node_of 0 head_old not_head in
      record {
        valid = record {
          low = v.low;
          high = v.high;
          head_start = ap (λ (n : Node). n.start) at_head ∙ v.head_start;
          head_end = ap (λ (n : Node). add n.start n.size) at_head ∙ v.head_end;
          chain =
              subst (λ z. Chain mm'.node hi lo z mm'.nodes) head
                (Chain-map mm.node mm'.node (swap old new) hi lo 0 mm.nodes
                  (λ k o. alike k (elim o [
                    | inl w ↦ λ w'. not_head (sym w ∙ w')
                    | inr w ↦
                        λ w'. let z = ap (λ j. has j mm.nodes) w' in ground (arith, z, w, fresh)
                  ]))
                  (λ k o e.
                    still k
                      (λ w'. let z = ap (λ j. has j mm.nodes) w' in ground (arith, z, o, fresh)) e)
                  v.chain);
          distinct = (
            has-swap-other old new 0 mm.nodes head_old not_head ∙ v.distinct.0,
            swap-Distinct old new mm.nodes fresh v.distinct.1,
          );
          on_stack = λ h. stacked h fresh unstacked old_new head_old not_head;
        };
        gone = (has-swap-old old new mm.nodes old_new, old_free old_new);
        come = (has-swap-new old new mm.nodes fresh ∙ i, new_allocated);
        place = (of_new.start, of_new.size);
        others = λ k a b. (node_of k a b, has-swap-other old new k mm.nodes a b);
      }

  -- drm_mm_replace_node of a node on the list of a valid allocator by one that is not on it, where
  -- the old node has a hole behind it or an entry for the holes that list_del has not left, does no
  -- list operation on a deleted entry and keeps the allocator valid; the new node is allocated, on
  -- the list and at the place of the old one, which is neither allocated nor on the list any more,
  -- and every other node stays as it was.
  pub replace_node-IsReplaced :
      (deleted : Bool)
      → ((mm.node old).hole_follows ≡ true) ⊎ (deleted ≡ false)
      → has old mm.nodes ≡ true
      → has new (0 ∷ mm.nodes) ≡ false
      → (mm' : Mm) × (replace_node deleted mm old new ≡ some mm') × IsReplaced mm lo hi old new mm'
  unfolding replace_node
  replace_node-IsReplaced deleted usable i out =
      let st = v.on_stack old in
      let test : (deleted && not (has old mm.holes)) ≡ false = elim usable [
        | inl f ↦ ground (arith, st, f, i)
        | inr d ↦ ground (arith, d)
      ] in
      (replaced mm old new, rw test refl, replaced-IsReplaced i out)
