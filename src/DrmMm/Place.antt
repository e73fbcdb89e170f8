-- ===== src/DrmMm/Place.antt =====
-- Storing a node in a hole keeps the allocator's invariant: `put_node`.
use mathlib.Core.Path.{subst}
use my_posts.Prelude.{
  ℕ, ◌+◌, ◌≤◌, ◌≡◌, ◌≢◌, refl, ap, sym, ◌∙◌, inl, inr, Bool, true, false, not, ◌&&◌, ◌||◌, List, [],
  ◌∷◌, arith, ltb, ◌==◌, Bool-cases, ne_eq, eq_self, has, if◌then◌else◌,
}
use my_posts.DrmMm.{Node, Mm, set_node, insert_in, remove, hole_start, hole_end}
use my_posts.DrmMm.Layout.{
  IsValid, Gap-next_in, Put, Put-keeps, Chain-insert_in, has-insert_in, Distinct-insert_in, end_of,
  has-ne,
}

pub has-remove : (j n : ℕ) (ks : List ℕ) → has j (remove n ks) ≡ (has j ks && not (n == j))
unfolding remove
has-remove j n [] = refl
has-remove j n (k ∷ ks) = ground (arith, has-remove j n ks)

-- The next node's start bounds the hole, which does not wrap.
pub hole_start_eq :
    (mm : Mm) (lo hi h : ℕ)
    → IsValid mm lo hi
    → has h (0 ∷ mm.nodes) ≡ true
    → end_of mm.node lo 0 h ≡ hole_start mm h
unfolding hole_start
hole_start_eq mm lo hi h v i =
    let g = Gap-next_in mm.node hi lo 0 h mm.nodes v.head_start v.distinct i v.chain in
    elim (Bool-cases (h == 0)) [
      | inl x ↦ let e : h ≡ 0 = ground arith in rw (e, sym v.head_end) refl
      | inr x ↦
          let r : end_of mm.node lo 0 h ≡ (mm.node h).start + (mm.node h).size = rw x in
          omega (arith, r, g.room, g.within, v.high)
    ]

-- The node in front of a new one gives up its hole, if the new one starts right behind it.
pub before_lem :
    (hole : Node) (hs a : ℕ)
    → hole.hole_follows ≡ true
    → hs ≤ a
    → (if a == hs then record hole { hole_follows = false } else hole)
      ≡ record hole { hole_follows = ltb hs a }
before_lem hole hs a flag le = elim (Bool-cases (a == hs)) [
  | inl x ↦ let f : ltb hs a ≡ false = ground arith in rw (x, f)
  | inr x ↦
      let f : ltb hs a ≡ true = ground arith in
      rw (x, f) (ap (λ b. record hole { hole_follows = b }) flag)
]

-- Two stores at different nodes.
module _ (f : ℕ → Node) (h n : ℕ) (before new : Node) (ne : h ≢ n) where
  pub set_node-new : set_node (set_node f h before) n new n ≡ new
  set_node-new = rw (eq_self n)

  pub set_node-hole : set_node (set_node f h before) n new h ≡ before
  set_node-hole = rw (ne_eq h n ne, eq_self h)

  pub set_node-other : (k : ℕ) → k ≢ h → k ≢ n → set_node (set_node f h before) n new k ≡ f k
  set_node-other k kh kn = rw (ne_eq k n kn, ne_eq k h kh)

  -- The hole's node keeps its place.
  pub set_node-Put :
      before.start ≡ (f h).start
      → before.size ≡ (f h).size
      → before.allocated ≡ (f h).allocated
      → Put f (set_node (set_node f h before) n new) h n
  set_node-Put s z al = record {
    same = set_node-other;
    start = ap (λ (k : Node). k.start) set_node-hole ∙ s;
    size = ap (λ (k : Node). k.size) set_node-hole ∙ z;
    alloc = ap (λ (k : Node). k.allocated) set_node-hole ∙ al;
  }

pub has-push :
    (j n : ℕ) (more : Bool) (ks : List ℕ)
    → has j (if more then n ∷ ks else ks) ≡ ((more && (n == j)) || has j ks)
has-push j n true ks = refl
has-push j n false ks = refl

pub has-drop :
    (j h : ℕ) (gone : Bool) (ks : List ℕ)
    → has j (if gone then remove h ks else ks) ≡ (has j ks && not (gone && (h == j)))
has-drop j h true ks = has-remove j h ks
has-drop j h false ks = ground arith

-- The hole stack after a new node `n` in the hole behind `h`.
module _ (mm : Mm) (lo hi h n : ℕ) (new before : Node) (more at_start : Bool) where
  pub stored-stack :
      IsValid mm lo hi
      → has h (0 ∷ mm.nodes) ≡ true
      → (mm.node h).hole_follows ≡ true
      → has n (0 ∷ mm.nodes) ≡ false
      → new.hole_follows ≡ more
      → before.hole_follows ≡ not at_start
      → (j : ℕ)
      → has j (
          if more
          then n ∷ (if at_start then remove h mm.holes else mm.holes)
          else (if at_start then remove h mm.holes else mm.holes))
        ≡ (has j (0 ∷ insert_in h n 0 mm.nodes)
            && (set_node (set_node mm.node h before) n new j).hole_follows)
  stored-stack v i flag out mn bh j =
      let ne : h ≢ n = has-ne h n (0 ∷ mm.nodes) i out in
      let r =
        has-push j n more (if at_start then remove h mm.holes else mm.holes)
        ∙ ap (λ b. (more && (n == j)) || b) (has-drop j h at_start mm.holes) in
      let s = v.on_stack j in
      let ins = has-insert_in j h n 0 mm.nodes in
      elim (Bool-cases (n == j)) [
        | inl x ↦
            let e : n ≡ j = ground arith in
            let at_n : (set_node (set_node mm.node h before) n new j).hole_follows ≡ more =
              rw (← e)
                (ap (λ (k : Node). k.hole_follows) (set_node-new mm.node h n before new ne) ∙ mn) in
            let o : has j (0 ∷ mm.nodes) ≡ false =
              subst (λ z. has z (0 ∷ mm.nodes) ≡ false) e out in
            rw (r, at_n, s, ins, o) (ground arith)
        | inr x ↦ elim (Bool-cases (h == j)) [
          | inl y ↦
              let e : h ≡ j = ground arith in
              let at_h : (set_node (set_node mm.node h before) n new j).hole_follows
                  ≡ not at_start =
                rw (← e) (
                  ap (λ (k : Node). k.hole_follows) (set_node-hole mm.node h n before new ne)
                  ∙ bh) in
              let o : has j (0 ∷ mm.nodes) ≡ true = subst (λ z. has z (0 ∷ mm.nodes) ≡ true) e i in
              let fl : (mm.node j).hole_follows ≡ true =
                subst (λ z. (mm.node z).hole_follows ≡ true) e flag in
              rw (r, at_h, s, ins, fl) (ground arith)
          | inr y ↦
              let at_j = set_node-other mm.node h n before new ne j (ground arith) (ground arith) in
              rw (r, at_j, s, ins) (ground arith)
        ]
      ]

-- A new node `n` in the hole behind `h`.
module _ (mm mm' : Mm) (lo hi h n : ℕ) (new before : Node) where
  pub stored-IsValid :
      IsValid mm lo hi
      → has h (0 ∷ mm.nodes) ≡ true
      → has n (0 ∷ mm.nodes) ≡ false
      → before ≡ record (mm.node h) { hole_follows = ltb (hole_start mm h) new.start }
      → new.hole_follows ≡ ltb (new.start + new.size) (hole_end mm h)
      → new.allocated ≡ true
      → hole_start mm h ≤ new.start
      → 1 ≤ new.size
      → new.start + new.size ≤ hole_end mm h
      → mm'.node ≡ set_node (set_node mm.node h before) n new
      → mm'.nodes ≡ insert_in h n 0 mm.nodes
      → ((j : ℕ) → has j mm'.holes ≡ (has j (0 ∷ mm'.nodes) && (mm'.node j).hole_follows))
      → IsValid mm' lo hi
  unfolding hole_end hole_start
  stored-IsValid v i out be more al ge sz le en el stack =
      let f' = set_node (set_node mm.node h before) n new in
      let eq = hole_start_eq mm lo hi h v i in
      let ne : h ≢ n = has-ne h n (0 ∷ mm.nodes) i out in
      let at_n : f' n ≡ new = set_node-new mm.node h n before new ne in
      let put : Put mm.node f' h n =
        set_node-Put mm.node h n before new ne (ap (λ (k : Node). k.start) be)
          (ap (λ (k : Node). k.size) be) (ap (λ (k : Node). k.allocated) be) in
      let zero_n : 0 ≢ n = has-ne 0 n (0 ∷ mm.nodes) (ground (arith, eq_self 0)) out in
      let keep = Put-keeps mm.node f' hi h n put 0 zero_n in
      let head : (f' 0).start ≡ hi = keep.0 ∙ v.head_start in
      record {
        low = v.low;
        high = v.high;
        head_start = rw en head;
        head_end = rw (en, keep.0, keep.1) v.head_end;
        chain =
            rw (en, el)
              (Chain-insert_in mm.node f' hi h n put lo 0 mm.nodes v.distinct out i v.head_start
                (rw (at_n, eq)
                  (ap (λ (k : Node). k.hole_follows) (set_node-hole mm.node h n before new ne)
                    ∙ ap (λ (k : Node). k.hole_follows) be))
                (rw at_n more) (rw at_n al) (rw at_n sz) (rw (at_n, eq) ge) (rw at_n le) v.chain);
        distinct = rw el (
          ground (arith, has-insert_in 0 h n 0 mm.nodes),
          Distinct-insert_in h n 0 mm.nodes (ground arith) v.distinct.1,
        );
        on_stack = stack;
      }
