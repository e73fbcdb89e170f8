-- ===== src/DrmMm/Insert.antt =====
-- What inserting a node does: drm_mm_insert_node_generic and drm_mm_insert_node_in_range_generic.
use my_posts.Prelude.{
  ℕ, ◌+◌, ◌-◌, ◌≤◌, ◌<◌, ◌≡◌, ◌≢◌, refl, ap, ◌∙◌, inl, inr, Bool, true, false, ◌||◌, Option, none,
  some, ◌∷◌, arith, ltb, ◌==◌, Option-cases, le→ltb_false, has, if◌then◌else◌,
}
use my_posts.DrmMm.{
  Node, Mm, Result, ok, enospc, bug, word, add, set_node, hole_start, hole_end, align_start, clip,
  Adjust, adjusted, serves, search_free,
}
use my_posts.DrmMm.Ops.{flag_missing, put_node, insert_helper, insert_node}
use my_posts.DrmMm.Layout.{IsValid, Gap-next_in, Put, Put-keeps, has-insert_in, has-ne}
use my_posts.DrmMm.Place.{before_lem, stored-IsValid, stored-stack, set_node-new, set_node-Put}
use my_posts.DrmMm.Fit.{IsWithin, Fits, serves-Fits}
use my_posts.DrmMm.Search.{
  IsAligned, align_start_lem, seen, serves_lem, search_loop-some, search_loop-none,
}

-- The hook only narrows the hole.
abbrev pub IsNarrowing : Adjust → Type 0
IsNarrowing adjust =
    (mm : Mm) (h color : ℕ) (r : ℕ × ℕ)
    → (r.0 ≤ (adjusted adjust mm h color r).0) × ((adjusted adjust mm h color r).1 ≤ r.1)

clip_lem :
    (range : Option (ℕ × ℕ)) (a b x y : ℕ)
    → (clip range (x, y)).0 ≤ a
    → b ≤ (clip range (x, y)).1
    → (x ≤ a) × (b ≤ y) × IsWithin range a b
unfolding clip
clip_lem none a b x y p q = (p, q, tt)
clip_lem (some (s, e)) a b x y p q = (ground arith, ground arith, (ground arith, ground arith))

clip-le : (range : Option (ℕ × ℕ)) (x y : ℕ) → (clip range (x, y)).1 ≤ y
unfolding clip
clip-le none x y = omega arith
clip-le (some (s, e)) x y = ground arith

hole_end_below :
    (mm : Mm) (lo hi h : ℕ) → IsValid mm lo hi → has h (0 ∷ mm.nodes) ≡ true → hole_end mm h < word
unfolding hole_end
hole_end_below mm lo hi h v i = omega (
  arith,
  v.high,
  (Gap-next_in mm.node hi lo 0 h mm.nodes v.head_start v.distinct i v.chain).within,
)

clip_end :
    (range : Option (ℕ × ℕ)) (a b x : ℕ)
    → IsWithin range a b
    → b < word
    → ltb (clip range (x, word)).1 b ≡ false
unfolding clip
clip_end none a b x w l = ground arith
clip_end (some (s, e)) a b x w l = ground (arith, w.1)

flag_present :
    (range : Option (ℕ × ℕ)) (hole : Node)
    → hole.hole_follows ≡ true
    → flag_missing range hole ≡ false
unfolding flag_missing
flag_present none hole h = refl
flag_present (some r) hole h = rw h

-- The node `n` has joined the others, which stay where they were.
pub record IsPlaced (mm mm' : Mm) (lo hi n size alignment : ℕ) (range : Option (ℕ × ℕ))
    : Type 0 where
  pub valid : IsValid mm' lo hi
  pub sized : (mm'.node n).size ≡ size
  pub aligned : IsAligned alignment (mm'.node n).start
  pub within : IsWithin range (mm'.node n).start ((mm'.node n).start + size)
  pub nodes : (j : ℕ) → has j mm'.nodes ≡ ((n == j) || has j mm.nodes)
  pub kept :
      (j : ℕ)
      → j ≢ n
      → ((mm'.node j).start ≡ (mm.node j).start) × ((mm'.node j).size ≡ (mm.node j).size)

module _ (mm : Mm) (lo hi h n a size color : ℕ) where
  module _ (v : IsValid mm lo hi) (i : has h (0 ∷ mm.nodes) ≡ true)
      (flag : (mm.node h).hole_follows ≡ true) (out : has n (0 ∷ mm.nodes) ≡ false)
      (ge : hole_start mm h ≤ a) (sz : 1 ≤ size) (le : a + size ≤ hole_end mm h) where
    pub hole_end_le : hole_end mm h ≤ hi
    unfolding hole_end
    hole_end_le = (Gap-next_in mm.node hi lo 0 h mm.nodes v.head_start v.distinct i v.chain).within

    before : Node
    before = if a == hole_start mm h then record (mm.node h) { hole_follows = false } else mm.node h

    before_eq : before ≡ record (mm.node h) { hole_follows = ltb (hole_start mm h) a }
    unfolding before
    before_eq = before_lem (mm.node h) (hole_start mm h) a flag ge

    pub put_node-IsValid :
        IsValid (put_node mm h n a size color (hole_start mm h) (hole_end mm h)) lo hi
    unfolding put_node before
    put_node-IsValid =
        let mm' = put_node mm h n a size color (hole_start mm h) (hole_end mm h) in
        let e : add a size ≡ a + size = omega (arith, hole_end_le, v.high) in
        let more = ltb (add a size) (hole_end mm h) in
        let new = record (mm.node n) {
          start = a;
          size = size;
          color = color;
          allocated = true;
          hole_follows = more;
        } in
        stored-IsValid mm mm' lo hi h n new before v i out before_eq (rw e) refl ge sz le refl refl
          (stored-stack mm lo hi h n new before more (a == hole_start mm h) v i flag out refl
            (ap (λ (k : Node). k.hole_follows) before_eq ∙ ground arith))

    pub put_node-IsPlaced :
        (alignment : ℕ) (range : Option (ℕ × ℕ))
        → IsAligned alignment a
        → IsWithin range a (a + size)
        → IsPlaced mm
            (put_node mm h n a size color (hole_start mm h) (hole_end mm h))
            lo
            hi
            n
            size
            alignment
            range
    unfolding put_node before
    put_node-IsPlaced alignment range al w =
        let ne : h ≢ n = has-ne h n (0 ∷ mm.nodes) i out in
        let more = ltb (add a size) (hole_end mm h) in
        let new = record (mm.node n) {
          start = a;
          size = size;
          color = color;
          allocated = true;
          hole_follows = more;
        } in
        let at_n = set_node-new mm.node h n before new ne in
        let put : Put mm.node (set_node (set_node mm.node h before) n new) h n =
          set_node-Put mm.node h n before new ne (ap (λ (k : Node). k.start) before_eq)
            (ap (λ (k : Node). k.size) before_eq) (ap (λ (k : Node). k.allocated) before_eq) in
        record {
          valid = put_node-IsValid;
          sized = ap (λ (k : Node). k.size) at_n;
          aligned = rw at_n al;
          within = rw at_n w;
          nodes = λ j. has-insert_in j h n 0 mm.nodes;
          kept = λ j jn.
              let k =
                Put-keeps mm.node (set_node (set_node mm.node h before) n new) hi h n put j jn in
              (k.0, k.1);
        }

module _ (adjust : Adjust) (mm : Mm) (lo hi n size alignment color : ℕ)
    (range : Option (ℕ × ℕ)) where
  -- No request at a hole on the stack wraps around the address space.
  abbrev pub NoWrap : Type 0
  NoWrap =
      (h : ℕ)
      → has h mm.holes ≡ true
      → (seen adjust mm size alignment color range h).0 + alignment + size < word

  -- The result of an insertion, `want_best` standing for DRM_MM_SEARCH_BEST.
  abbrev pub Inserted : Bool → Result Mm → Type 0
  Inserted want_best (ok mm') = IsPlaced mm mm' lo hi n size alignment range
  Inserted want_best enospc =
      (h a : ℕ)
      → has h mm.holes ≡ true
      → Fits adjust mm size alignment color range h a
      → (want_best ≡ true) × (word - 1 ≤ (mm.node h).size)
  Inserted want_best bug = ⊥

  fitting-serves :
      IsValid mm lo hi
      → IsNarrowing adjust
      → NoWrap
      → 1 ≤ size
      → (h a : ℕ) → has h mm.holes ≡ true
      → Fits adjust mm size alignment color range h a
      → serves adjust mm size alignment color range h ≡ true
  fitting-serves v nar nw sz h a i fit =
      let narrow = nar mm h color (clip range (hole_start mm h, hole_end mm h)) in
      let end = hole_end_below mm lo hi h v (let st = v.on_stack h in ground (arith, st, i)) in
      let small = clip-le range (hole_start mm h) (hole_end mm h) in
      serves-Fits adjust mm size alignment color range h a (nw h i)
        (omega (arith, narrow.1, small, end)) sz fit

  insert_helper-Inserted :
      (want_best : Bool) (h : ℕ)
      → IsValid mm lo hi
      → IsNarrowing adjust
      → NoWrap
      → 1 ≤ size
      → (mm.node n).allocated ≡ false
      → has n (0 ∷ mm.nodes) ≡ false
      → has h mm.holes ≡ true
      → serves adjust mm size alignment color range h ≡ true
      → Inserted want_best (insert_helper adjust mm h n size alignment color range)
  unfolding insert_helper
  insert_helper-Inserted want_best h v nar nw sz al out i s =
      let st = v.on_stack h in
      let mem : has h (0 ∷ mm.nodes) ≡ true = ground arith in
      let flag : (mm.node h).hole_follows ≡ true = ground arith in
      let r = seen adjust mm size alignment color range h in
      let a = align_start r.0 alignment in
      let room = serves_lem adjust mm size alignment color range h (nw h i) s in
      let up = align_start_lem r.0 alignment (omega (arith, nw h)) in
      let narrow = nar mm h color (clip range (hole_start mm h, hole_end mm h)) in
      let c =
        clip_lem range a (a + size) (hole_start mm h) (hole_end mm h)
          (omega (arith, narrow.0, up.0)) (omega (arith, narrow.1, room)) in
      let e : add a size ≡ a + size = omega (arith, nw h i, up.1) in
      let past = clip_end range a (a + size) (hole_start mm h) c.2 (omega (arith, nw h i, up.1)) in
      rw (flag_present range (mm.node h) flag, al, e, le→ltb_false r.1 (a + size) room, past)
        (put_node-IsPlaced mm lo hi h n a size color v mem flag out c.0 sz c.1 alignment range up.2
          c.2)

  -- Inserting a node that is not allocated, of at least one byte, into a valid allocator that
  -- no scan is going on in ends without a failed BUG_ON. With success the allocator stays
  -- valid, the node has the size asked for, an aligned start and a place within the range asked
  -- for, the list has gained this node only, and every other node keeps its place. -ENOSPC is
  -- returned only where no hole on the stack has an aligned address from which the size asked for
  -- lies in the hole, in the range and in what the hook leaves of the hole, save, in a search for
  -- the best match, behind a node of size 2 ^ 64 - 1. The hook that adjusts a hole only narrows
  -- it, and no request wraps around the address space.
  pub insert_node-Inserted :
      (want_best : Bool)
      → IsValid mm lo hi
      → IsNarrowing adjust
      → NoWrap
      → 1 ≤ size
      → (mm.node n).allocated ≡ false
      → has n (0 ∷ mm.nodes) ≡ false
      → mm.scanned_blocks ≡ 0
      → Inserted want_best (insert_node adjust mm n size alignment color range want_best)
  unfolding insert_node search_free
  insert_node-Inserted want_best v nar nw sz al out sc =
      let idle : (mm.scanned_blocks == 0) ≡ true = ground arith in
      elim (Option-cases (search_free adjust mm size alignment color range want_best)) [
        | inl e ↦
            rw (idle, e)
              (λ h a i fit.
                search_loop-none adjust mm size alignment color range want_best none (word - 1) h
                  mm.holes e i (fitting-serves v nar nw sz h a i fit))
        | inr (h, e) ↦
            elim (search_loop-some adjust mm size alignment color range want_best none (word - 1) h
              mm.holes e) [
                | inl o ↦ ground (arith, o)
                | inr (i, s) ↦
                    rw (idle, e) (insert_helper-Inserted want_best h v nar nw sz al out i s)
              ]
      ]
