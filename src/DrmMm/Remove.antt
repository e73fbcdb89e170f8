-- ===== src/DrmMm/Remove.antt =====
-- What removing a node does: drm_mm_remove_node.
use mathlib.Core.Path.{subst}
use my_posts.Prelude.{
  ℕ, ◌+◌, ◌≤◌, ◌≡◌, ◌≢◌, refl, ap, sym, ◌∙◌, inl, inr, true, false, not, ◌&&◌, List, [], ◌∷◌, arith,
  ltb, ◌==◌, Bool-cases, eq_self, has, if◌then◌else◌,
}
use my_posts.DrmMm.{Node, Mm, ok, set_node, next_in, prev_in, remove, hole_start, hole_end}
use my_posts.DrmMm.Ops.{unlink_node, remove_node}
use my_posts.DrmMm.Layout.{
  IsValid, Chain, Chain-from, Distinct, start_of, Gap-next_in, Put, Put-keeps, has-ne,
}
use my_posts.DrmMm.Place.{
  has-remove, has-drop, hole_start_eq, set_node-new, set_node-hole, set_node-other, set_node-Put,
}

pub remove-absent : (n : ℕ) (ks : List ℕ) → has n ks ≡ false → remove n ks ≡ ks
unfolding remove
remove-absent n [] h = refl
remove-absent n (k ∷ ks) h =
    let e : (k == n) ≡ false = ground arith in rw (e, remove-absent n ks (ground arith))

pub prev_in-here : (n p k : ℕ) (ks : List ℕ) → (k == n) ≡ true → prev_in n p (k ∷ ks) ≡ p
unfolding prev_in
prev_in-here n p k ks x = rw x

pub prev_in-next :
    (n p k : ℕ) (ks : List ℕ) → (k == n) ≡ false → prev_in n p (k ∷ ks) ≡ prev_in n k ks
unfolding prev_in
prev_in-next n p k ks x = rw x

pub has-prev_in : (n p : ℕ) (ks : List ℕ) → has (prev_in n p ks) (p ∷ ks) ≡ true
unfolding prev_in
has-prev_in n p [] = ground (arith, eq_self p)
has-prev_in n p (k ∷ ks) = elim (Bool-cases (k == n)) [
  | inl x ↦ ground (arith, eq_self p, prev_in-here n p k ks x)
  | inr x ↦
      subst (λ z. has z (p ∷ k ∷ ks) ≡ true) (sym (prev_in-next n p k ks x))
        (ground (arith, has-prev_in n k ks))
]

pub prev_in-ne : (n p : ℕ) (ks : List ℕ) → Distinct (p ∷ ks) → has n ks ≡ true → prev_in n p ks ≢ n
prev_in-ne n p [] ds i = ground (arith, i)
prev_in-ne n p (k ∷ ks) ds i = elim (Bool-cases (k == n)) [
  | inl x ↦ λ e. has-ne n p (k ∷ ks) i ds.0 (sym e ∙ prev_in-here n p k ks x)
  | inr x ↦ λ e. prev_in-ne n k ks ds.1 (ground arith) (sym (prev_in-next n p k ks x) ∙ e)
]

Distinct-remove : (n : ℕ) (ks : List ℕ) → Distinct ks → Distinct (remove n ks)
unfolding remove
Distinct-remove n [] d = tt
Distinct-remove n (k ∷ ks) d = elim (Bool-cases (k == n)) [
  | inl x ↦ rw x (Distinct-remove n ks d.1)
  | inr x ↦ rw x (ground (arith, has-remove k n ks), Distinct-remove n ks d.1)
]

Chain-start_of :
    (f : ℕ → Node) (hi pe p : ℕ) (ks : List ℕ) → Chain f hi pe p ks → pe ≤ start_of f hi ks
Chain-start_of f hi pe p [] c = c.0
Chain-start_of f hi pe p (k ∷ ks) c = c.0

-- Without the node `n`, which follows `q`, the others stay in order.
module _ (f f' : ℕ → Node) (hi n q : ℕ) (put : Put f f' q n) (fl : (f' q).hole_follows ≡ true) where
  Chain-remove :
      (pe p : ℕ) (ks : List ℕ)
      → q ≡ prev_in n p ks
      → Distinct (p ∷ ks)
      → has n ks ≡ true
      → Chain f hi pe p ks
      → Chain f' hi pe p (remove n ks)
  unfolding remove
  Chain-remove pe p [] qe ds i c = ground (arith, i)
  Chain-remove pe p (k ∷ ks) qe ds i (a, b, d, g, c) = elim (Bool-cases (k == n)) [
    | inl x ↦
        let e : k ≡ n = ground arith in
        let qp : q ≡ p = qe ∙ prev_in-here n p k ks x in
        let absent : has n ks ≡ false = subst (λ z. has z ks ≡ false) e ds.1.0 in
        let p_absent : has q ks ≡ false = subst (λ z. has z ks ≡ false) (sym qp) (ground arith) in
        let s = Chain-start_of f hi ((f k).start + (f k).size) k ks c in
        rw (x, remove-absent n ks absent)
          (Chain-from f f' hi ((f k).start + (f k).size) k pe p ks (omega (arith, s))
            (subst (λ z. (f' z).hole_follows ≡ true) qp fl ∙ ground (arith, s))
            (λ j j_in. put.same j (has-ne j q ks j_in p_absent) (has-ne j n ks j_in absent)) c)
    | inr x ↦
        let qk : q ≡ prev_in n k ks = qe ∙ prev_in-next n p k ks x in
        let inside : has n ks ≡ true = ground arith in
        let q_in : has q (k ∷ ks) ≡ true =
          subst (λ z. has z (k ∷ ks) ≡ true) (sym qk) (has-prev_in n k ks) in
        let qp : q ≢ p = has-ne q p (k ∷ ks) q_in ds.0 in
        let np : n ≢ p = has-ne n p (k ∷ ks) i ds.0 in
        let s = Put-keeps f f' hi q n put k (ground arith) in
        let at_p = put.same p (λ w. qp (sym w)) (λ w. np (sym w)) in
        rw x (
          subst (λ z. pe ≤ z) (sym s.0) a,
          subst (λ z. (f' p).hole_follows ≡ ltb pe z) (sym s.0)
              (ap (λ (z : Node). z.hole_follows) at_p ∙ b),
          s.2 ∙ d,
          subst (λ z. 1 ≤ z) (sym s.1) g,
          subst (λ z. Chain f' hi z k (remove n ks)) (rw (s.0, s.1))
              (Chain-remove ((f k).start + (f k).size) k ks qk ds.1 inside c),
        )
  ]

-- The node `n` has left the others, which stay where they were.
pub record IsRemoved (mm mm' : Mm) (lo hi n : ℕ) : Type 0 where
  pub valid : IsValid mm' lo hi
  pub released : (mm'.node n).allocated ≡ false
  pub nodes : (j : ℕ) → has j mm'.nodes ≡ (has j mm.nodes && not (n == j))
  pub kept :
      (j : ℕ) → ((mm'.node j).start ≡ (mm.node j).start) × ((mm'.node j).size ≡ (mm.node j).size)

module _ (mm : Mm) (lo hi n : ℕ) (v : IsValid mm lo hi) (i : has n mm.nodes ≡ true) where
  unlinked-stack :
      (p : ℕ)
      → p ≢ n
      → 0 ≢ n
      → has p (0 ∷ mm.nodes) ≡ true
      → (j : ℕ)
      → has j (
          p
          ∷ (if (mm.node p).hole_follows
              then remove p (if (mm.node n).hole_follows then remove n mm.holes else mm.holes)
              else (if (mm.node n).hole_follows then remove n mm.holes else mm.holes)))
        ≡ (has j (0 ∷ remove n mm.nodes)
            && (set_node
                (set_node mm.node p (record (mm.node p) { hole_follows = true }))
                n
                (record (mm.node n) { allocated = false })
                j).hole_follows)
  unlinked-stack p pn zn p_in j =
      let before = record (mm.node p) { hole_follows = true } in
      let new = record (mm.node n) { allocated = false } in
      let f' = set_node (set_node mm.node p before) n new in
      let H = if (mm.node n).hole_follows then remove n mm.holes else mm.holes in
      let r1 = has-drop j p (mm.node p).hole_follows H in
      let r2 = has-drop j n (mm.node n).hole_follows mm.holes in
      let s = v.on_stack j in
      let rm = has-remove j n mm.nodes in
      elim (Bool-cases (n == j)) [
        | inl x ↦
            let e : n ≡ j = ground arith in
            let z : (0 == j) ≡ false = ground arith in
            let pj : (p == j) ≡ false = ground arith in
            let fl : (mm.node n).hole_follows ≡ (mm.node j).hole_follows =
              ap (λ z. (mm.node z).hole_follows) e in
            rw (r1, r2, rm, s, x, z, pj, fl) (ground arith)
        | inr x ↦ elim (Bool-cases (p == j)) [
          | inl y ↦
              let e : p ≡ j = ground arith in
              let at_j : (f' j).hole_follows ≡ true =
                subst (λ z. (f' z).hole_follows ≡ true) e
                  (ap (λ (k : Node). k.hole_follows) (set_node-hole mm.node p n before new pn)) in
              let j_in : has j (0 ∷ mm.nodes) ≡ true =
                subst (λ z. has z (0 ∷ mm.nodes) ≡ true) e p_in in
              rw (y, at_j, rm, x) (ground arith)
          | inr y ↦
              let at_j = set_node-other mm.node p n before new pn j (ground arith) (ground arith) in
              rw (y, at_j, r1, r2, rm, s, x) (ground arith)
        ]
      ]

  unlink_node-IsRemoved : IsRemoved mm (unlink_node mm n (prev_in n 0 mm.nodes)) lo hi n
  unfolding unlink_node hole_start
  unlink_node-IsRemoved =
      let p = prev_in n 0 mm.nodes in
      let mm' = unlink_node mm n p in
      let before = record (mm.node p) { hole_follows = true } in
      let new = record (mm.node n) { allocated = false } in
      let f' = set_node (set_node mm.node p before) n new in
      let p_in = has-prev_in n 0 mm.nodes in
      let pn : p ≢ n = prev_in-ne n 0 mm.nodes v.distinct i in
      let put : Put mm.node f' p n = set_node-Put mm.node p n before new pn refl refl refl in
      let at_n : f' n ≡ new = set_node-new mm.node p n before new pn in
      let at_p : f' p ≡ before = set_node-hole mm.node p n before new pn in
      let zero_n : 0 ≢ n = λ e. has-ne n 0 mm.nodes i v.distinct.0 (sym e) in
      let keep = Put-keeps mm.node f' hi p n put 0 zero_n in
      record {
        valid = record {
          low = v.low;
          high = v.high;
          head_start = keep.0 ∙ v.head_start;
          head_end = rw (keep.0, keep.1) v.head_end;
          chain =
              Chain-remove mm.node f' hi n p put (ap (λ (k : Node). k.hole_follows) at_p) lo 0
                mm.nodes refl v.distinct i v.chain;
          distinct =
              (ground (arith, has-remove 0 n mm.nodes), Distinct-remove n mm.nodes v.distinct.1);
          on_stack = unlinked-stack p pn zero_n p_in;
        };
        released = ap (λ (k : Node). k.allocated) at_n;
        nodes = λ j. has-remove j n mm.nodes;
        kept = λ j. elim (Bool-cases (j == n)) [
          | inl x ↦
              let e : n ≡ j = ground arith in
              subst (λ z. ((f' z).start ≡ (mm.node z).start) × ((f' z).size ≡ (mm.node z).size)) e
                (ap (λ (k : Node). k.start) at_n, ap (λ (k : Node). k.size) at_n)
          | inr x ↦ let k = Put-keeps mm.node f' hi p n put j (ground arith) in (k.0, k.1)
        ];
      }

  -- Removing an allocated node on the list of a valid allocator that is not being scanned
  -- passes both BUG_ON checks and succeeds; the allocator stays valid, so the hole in front,
  -- the node and the hole behind it become one hole on the stack; the node is no longer
  -- allocated, the list loses this node only, and every node keeps its place.
  pub remove_node-IsRemoved :
      (mm.node n).scanned_block ≡ false
      → (mm.node n).scanned_prev_free ≡ false
      → (mm.node n).scanned_next_free ≡ false
      → (mm.node n).allocated ≡ true
      → (mm' : Mm) × (remove_node mm n ≡ ok mm') × IsRemoved mm mm' lo hi n
  unfolding remove_node hole_end
  remove_node-IsRemoved sb sp sn al =
      let in_ring : has n (0 ∷ mm.nodes) ≡ true = ground arith in
      let g = Gap-next_in mm.node hi lo 0 n mm.nodes v.head_start v.distinct in_ring v.chain in
      let e = hole_start_eq mm lo hi n v in_ring in
      let r = unlink_node-IsRemoved in
      elim (Bool-cases (mm.node n).hole_follows) [
        | inl x ↦
            let o : (hole_start mm n == (mm.node (next_in n 0 mm.nodes)).start) ≡ false =
              ground (arith, g.flag, e) in
            (unlink_node mm n (prev_in n 0 mm.nodes), rw (sb, sp, sn, al, x, o), r)
        | inr x ↦
            let o : (hole_start mm n == (mm.node (next_in n 0 mm.nodes)).start) ≡ true =
              ground (arith, g.flag, g.room, e) in
            (unlink_node mm n (prev_in n 0 mm.nodes), rw (sb, sp, sn, al, x, o), r)
      ]
