-- ===== src/DrmMm/Reserve.antt =====
-- What reserving a fixed place does: drm_mm_reserve_node.
use mathlib.Core.Path.{subst}
use my_posts.Prelude.{
  ℕ, ◌+◌, ◌≤◌, ◌<◌, ◌≡◌, ◌≢◌, refl, ap, sym, ◌∙◌, inl, inr, true, false, not, ◌||◌, some, List, [],
  ◌∷◌, arith, ltb, ◌==◌, Bool-cases, eq_self, has, if◌then◌else◌,
}
use my_posts.DrmMm.{Node, Mm, Result, ok, enospc, bug, word, add, set_node, hole_start, hole_end}
use my_posts.DrmMm.Ops.{reserve_in, reserve_loop, reserve_node}
use my_posts.DrmMm.Layout.{IsValid, Put, Put-keeps, has-insert_in, has-ne}
use my_posts.DrmMm.Place.{before_lem, stored-IsValid, stored-stack, set_node-new, set_node-Put}
use my_posts.DrmMm.Insert.{IsPlaced}

module _ (mm : Mm) (lo hi n : ℕ) where
  -- The place that the caller asks for.
  abbrev pub from : ℕ
  from = (mm.node n).start

  abbrev pub to : ℕ
  to = (mm.node n).start + (mm.node n).size

  -- The result of a reservation.
  abbrev pub Reserved : List ℕ → Result Mm → Type 0
  Reserved hs (ok mm') =
      IsPlaced mm mm' lo hi n (mm.node n).size 0 (some (from, to)) × ((mm'.node n).start ≡ from)
  Reserved hs enospc = (h : ℕ) → has h hs ≡ true → hole_start mm h ≤ from → hole_end mm h < to
  Reserved hs bug = ⊥

  module _ (v : IsValid mm lo hi) (sz : 1 ≤ (mm.node n).size) (out : has n (0 ∷ mm.nodes) ≡ false)
      (nw : to < word) where
    reserve_in-Reserved :
        (h end : ℕ) (hs : List ℕ)
        → end ≡ to
        → has h (0 ∷ mm.nodes) ≡ true
        → (mm.node h).hole_follows ≡ true
        → hole_start mm h ≤ from
        → to ≤ hole_end mm h
        → Reserved hs (ok (reserve_in mm h n end (hole_start mm h) (hole_end mm h)))
    unfolding reserve_in
    reserve_in-Reserved h end hs ee i flag ge le =
        let ne : h ≢ n = has-ne h n (0 ∷ mm.nodes) i out in
        let at_start = from == hole_start mm h in
        let more = not (end == hole_end mm h) in
        let before : Node =
          if at_start then record (mm.node h) { hole_follows = false } else mm.node h in
        let new = record (mm.node n) { allocated = true; hole_follows = more } in
        let before_eq : before ≡ record (mm.node h) { hole_follows = ltb (hole_start mm h) from } =
          before_lem (mm.node h) (hole_start mm h) from flag ge in
        let at_n = set_node-new mm.node h n before new ne in
        let f' = set_node (set_node mm.node h before) n new in
        let put : Put mm.node f' h n =
          set_node-Put mm.node h n before new ne (ap (λ (k : Node). k.start) before_eq)
            (ap (λ (k : Node). k.size) before_eq) (ap (λ (k : Node). k.allocated) before_eq) in
        let mm' = reserve_in mm h n end (hole_start mm h) (hole_end mm h) in
        let placed : IsPlaced mm mm' lo hi n (mm.node n).size 0 (some (from, to)) = record {
          valid =
              stored-IsValid mm mm' lo hi h n new before v i out before_eq (ground (arith, ee)) refl
                ge sz le refl refl
                (stored-stack mm lo hi h n new before more at_start v i flag out refl
                  (ap (λ (k : Node). k.hole_follows) before_eq ∙ ground arith));
          sized = ap (λ (k : Node). k.size) at_n;
          aligned = inl refl;
          within = rw at_n (omega arith, omega arith);
          nodes = λ j. has-insert_in j h n 0 mm.nodes;
          kept = λ j jn. let k = Put-keeps mm.node f' hi h n put j jn in (k.0, k.1);
        } in
        (placed, ap (λ (k : Node). k.start) at_n)

    Reserved-cons :
        (k : ℕ) (ks : List ℕ) (r : Result Mm)
        → (hole_start mm k ≤ from → hole_end mm k < to)
        → Reserved ks r
        → Reserved (k ∷ ks) r
    Reserved-cons k ks (ok mm') f r = r
    Reserved-cons k ks enospc f r = λ h i le. elim (Bool-cases (k == h)) [
      | inl x ↦
          let e : k ≡ h = ground arith in
          subst (λ z. hole_end mm z < to) e (f (subst (λ z. hole_start mm z ≤ from) (sym e) le))
      | inr x ↦ r h (ground arith) le
    ]
    Reserved-cons k ks bug f r = r

    reserve_loop-Reserved :
        (hs : List ℕ)
        → ((h : ℕ)
            → has h hs ≡ true
            → (has h (0 ∷ mm.nodes) ≡ true) × ((mm.node h).hole_follows ≡ true))
        → Reserved hs (reserve_loop mm n hs)
    unfolding reserve_loop
    reserve_loop-Reserved [] on = λ h i. ground arith
    reserve_loop-Reserved (k ∷ ks) on =
        let rest = reserve_loop-Reserved ks (λ h i. on h (ground arith)) in
        let e : add from (mm.node n).size ≡ to = omega (arith, nw) in
        let o = on k (ground (arith, eq_self k)) in
        elim (Bool-cases
          (ltb from (hole_start mm k) || ltb (hole_end mm k) (add from (mm.node n).size))) [
            | inl x ↦
                rw x (Reserved-cons k ks (reserve_loop mm n ks) (λ le. ground (arith, e)) rest)
            | inr x ↦ rw x (
                reserve_in-Reserved k (add from (mm.node n).size) (k ∷ ks) e o.0 o.1
                  (ground (arith, e)) (ground (arith, e)))
          ]

    -- Reserving the place that a node names, of at least one byte and without wrap-around, for
    -- a node not on the list of a valid allocator: with success the allocator stays valid, the
    -- node stands exactly there, the list has gained this node only and the others keep their
    -- places; -ENOSPC is returned only where no hole on the stack holds the place.
    pub reserve_node-Reserved : Reserved mm.holes (reserve_node mm n)
    unfolding reserve_node
    reserve_node-Reserved =
        reserve_loop-Reserved mm.holes (λ h i. let s = v.on_stack h in (ground arith, ground arith))
