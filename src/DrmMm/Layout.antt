-- ===== src/DrmMm/Layout.antt =====
-- The invariant of the allocator: nodes in address order, holes exactly where there are gaps.
use mathlib.Core.Path.{subst}
use my_posts.Prelude.{
  ℕ, ◌+◌, ◌≤◌, ◌<◌, ◌≡◌, ◌≢◌, refl, ap, sym, ◌∙◌, inl, inr, true, false, ◌&&◌, ◌||◌, List, [], ◌∷◌,
  arith, ltb, ◌==◌, Bool-cases, ne_eq, eq_self, has, if◌then◌else◌,
}
use my_posts.DrmMm.{Node, Mm, word, next_in, insert_in, hole_start}

-- Where the node that follows starts, or the range ends.
abbrev pub start_of : (ℕ → Node) → ℕ → List ℕ → ℕ
start_of f hi [] = hi
start_of f hi (k ∷ ks) = (f k).start

-- Behind the node `p`, which ends at `pe`, the nodes `ks` lie in address order up to `hi`, and each
-- has its flag set exactly if a gap follows.
abbrev pub Chain : (ℕ → Node) → ℕ → ℕ → ℕ → List ℕ → Type 0
Chain f hi pe p [] = (pe ≤ hi) × ((f p).hole_follows ≡ ltb pe hi)
Chain f hi pe p (k ∷ ks) =
    (pe ≤ (f k).start)
    × ((f p).hole_follows ≡ ltb pe (f k).start)
    × ((f k).allocated ≡ true)
    × (1 ≤ (f k).size)
    × Chain f hi ((f k).start + (f k).size) k ks

-- No entry stands twice.
abbrev pub Distinct : List ℕ → Type 0
Distinct [] = Unit
Distinct (k ∷ ks) = (has k ks ≡ false) × Distinct ks

-- The allocator manages the range from `lo` to `hi`.
pub record IsValid (mm : Mm) (lo hi : ℕ) : Type 0 where
  pub low : lo < hi
  pub high : hi < word
  pub head_start : (mm.node 0).start ≡ hi
  pub head_end : hole_start mm 0 ≡ lo
  pub chain : Chain mm.node hi lo 0 mm.nodes
  pub distinct : Distinct (0 ∷ mm.nodes)
  pub on_stack : (h : ℕ) → has h mm.holes ≡ (has h (0 ∷ mm.nodes) && (mm.node h).hole_follows)

Chain-frame :
    (f f' : ℕ → Node) (hi pe p : ℕ) (ks : List ℕ)
    → (f' p).hole_follows ≡ (f p).hole_follows
    → ((k : ℕ) → has k ks ≡ true → f' k ≡ f k)
    → Chain f hi pe p ks
    → Chain f' hi pe p ks
Chain-frame f f' hi pe p [] hp same c = (c.0, hp ∙ c.1)
Chain-frame f f' hi pe p (k ∷ ks) hp same (a, b, d, e, c) =
    let s = same k (ground (arith, eq_self k)) in
    rw s (
      a,
      hp ∙ b,
      d,
      e,
      Chain-frame f f' hi ((f k).start + (f k).size) k ks (ap (λ (n : Node). n.hole_follows) s)
          (λ j h. same j (ground arith)) c,
    )

-- Where the node `h` ends, on a ring that goes on from `p`, which ends at `pe`.
abbrev pub end_of : (ℕ → Node) → ℕ → ℕ → ℕ → ℕ
end_of f pe p h = if h == p then pe else (f h).start + (f h).size

-- What follows a node on the ring.
pub record Gap (f : ℕ → Node) (hi e h nx : ℕ) : Type 0 where
  pub room : e ≤ nx
  pub flag : (f h).hole_follows ≡ ltb e nx
  pub within : nx ≤ hi

Chain-le : (f : ℕ → Node) (hi pe p : ℕ) (ks : List ℕ) → Chain f hi pe p ks → pe ≤ hi
Chain-le f hi pe p [] c = c.0
Chain-le f hi pe p (k ∷ ks) (a, b, d, e, c) =
    omega (arith, Chain-le f hi ((f k).start + (f k).size) k ks c)

pub end_of_next :
    (f : ℕ → Node) (pe p k h : ℕ)
    → h ≢ p
    → end_of f ((f k).start + (f k).size) k h ≡ end_of f pe p h
end_of_next f pe p k h ne = elim (Bool-cases (h == k)) [
  | inl x ↦ let e : h ≡ k = ground arith in rw (e, eq_self k, ne_eq k p (subst (λ z. z ≢ p) e ne))
  | inr x ↦ rw (x, ne_eq h p ne)
]

pub Gap-next_in :
    (f : ℕ → Node) (hi pe p h : ℕ) (ks : List ℕ)
    → (f 0).start ≡ hi
    → Distinct (p ∷ ks)
    → has h (p ∷ ks) ≡ true
    → Chain f hi pe p ks
    → Gap f hi (end_of f pe p h) h (f (next_in h p ks)).start
unfolding next_in
Gap-next_in f hi pe p h [] head ds i c =
    let e : p ≡ h = ground arith in
    rw (← e, eq_self p, head) (record { room = c.0; flag = c.1; within = omega arith })
Gap-next_in f hi pe p h (k ∷ ks) head ds i (a, b, d, e, c) = elim (Bool-cases (p == h)) [
  | inl x ↦
      let eq : p ≡ h = ground arith in
      rw (x, ← eq, eq_self p)
        (record {
          room = a;
          flag = b;
          within = omega (arith, Chain-le f hi ((f k).start + (f k).size) k ks c);
        })
  | inr x ↦
      let r = Gap-next_in f hi ((f k).start + (f k).size) k h ks head ds.1 (ground arith) c in
      rw x (
        subst (λ z. Gap f hi z h (f (next_in h k ks)).start) (end_of_next f pe p k h (ground arith))
          r)
]

pub has-insert_in :
    (j h n p : ℕ) (ks : List ℕ) → has j (insert_in h n p ks) ≡ ((n == j) || has j ks)
unfolding insert_in
has-insert_in j h n p [] = refl
has-insert_in j h n p (k ∷ ks) = ground (arith, has-insert_in j h n k ks)

pub Distinct-insert_in :
    (h n p : ℕ) (ks : List ℕ) → has n ks ≡ false → Distinct ks → Distinct (insert_in h n p ks)
unfolding insert_in
Distinct-insert_in h n p [] i d = (refl, tt)
Distinct-insert_in h n p (k ∷ ks) i d = elim (Bool-cases (p == h)) [
  | inl x ↦ rw x (i, (d.0, d.1))
  | inr x ↦
      rw x
        (ground (arith, has-insert_in k h n k ks), Distinct-insert_in h n k ks (ground arith) d.1)
]

pub has-ne : (a b : ℕ) (ks : List ℕ) → has a ks ≡ true → has b ks ≡ false → a ≢ b
has-ne a b ks ha hb e = ground (arith, ha, hb, ap (λ z. has z ks) e)

-- The nodes `ks` may lie behind another node that ends at `e`.
pub Chain-from :
    (f f' : ℕ → Node) (hi pe p e q : ℕ) (ks : List ℕ)
    → e ≤ start_of f hi ks
    → (f' q).hole_follows ≡ ltb e (start_of f hi ks)
    → ((k : ℕ) → has k ks ≡ true → f' k ≡ f k)
    → Chain f hi pe p ks
    → Chain f' hi e q ks
Chain-from f f' hi pe p e q [] le flag same c = (le, flag)
Chain-from f f' hi pe p e q (k ∷ ks) le flag same (a, b, d, g, c) =
    let s = same k (ground (arith, eq_self k)) in
    rw s (
      le,
      flag,
      d,
      g,
      Chain-frame f f' hi ((f k).start + (f k).size) k ks (ap (λ (n : Node). n.hole_follows) s)
          (λ j h. same j (ground arith)) c,
    )

-- `f'` has the new node `n`, and the flag of `h` may differ.
pub record Put (f f' : ℕ → Node) (h n : ℕ) : Type 0 where
  pub same : (k : ℕ) → k ≢ h → k ≢ n → f' k ≡ f k
  pub start : (f' h).start ≡ (f h).start
  pub size : (f' h).size ≡ (f h).size
  pub alloc : (f' h).allocated ≡ (f h).allocated

module _ (f f' : ℕ → Node) (hi h n : ℕ) (put : Put f f' h n) where
  pub Put-keeps :
      (k : ℕ)
      → k ≢ n
      → ((f' k).start ≡ (f k).start)
        × ((f' k).size ≡ (f k).size)
        × ((f' k).allocated ≡ (f k).allocated)
  Put-keeps k ne = elim (Bool-cases (k == h)) [
    | inl x ↦ let e : k ≡ h = ground arith in rw e (put.start, put.size, put.alloc)
    | inr x ↦ rw (put.same k (ground arith) ne) (refl, refl, refl)
  ]

  -- A new node in the gap behind `h` keeps the order.
  pub Chain-insert_in :
      (pe p : ℕ) (ks : List ℕ)
      → Distinct (p ∷ ks)
      → has n (p ∷ ks) ≡ false
      → has h (p ∷ ks) ≡ true
      → (f 0).start ≡ hi
      → ((f' h).hole_follows ≡ ltb (end_of f pe p h) (f' n).start)
      → ((f' n).hole_follows ≡ ltb ((f' n).start + (f' n).size) (f (next_in h p ks)).start)
      → ((f' n).allocated ≡ true)
      → 1 ≤ (f' n).size
      → end_of f pe p h ≤ (f' n).start
      → (f' n).start + (f' n).size ≤ (f (next_in h p ks)).start
      → Chain f hi pe p ks
      → Chain f' hi pe p (insert_in h n p ks)
  unfolding insert_in next_in
  Chain-insert_in pe p [] ds out i head flag more al sz lo up c =
      let e : h ≡ p = ground arith in
      let r : end_of f pe p h ≡ pe = rw (e, eq_self p) in
      (
        subst (λ z. z ≤ (f' n).start) r lo,
        subst (λ z. (f' z).hole_follows ≡ ltb pe (f' n).start) e
            (subst (λ z. (f' h).hole_follows ≡ ltb z (f' n).start) r flag),
        al,
        sz,
        (
          subst (λ z. (f' n).start + (f' n).size ≤ z) head up,
          subst (λ z. (f' n).hole_follows ≡ ltb ((f' n).start + (f' n).size) z) head more,
        ),
      )
  Chain-insert_in pe p (k ∷ ks) ds out i head flag more al sz lo up (a, b, d, g, c) =
      elim (Bool-cases (p == h)) [
        | inl x ↦
            let e : h ≡ p = ground arith in
            let r : end_of f pe p h ≡ pe = rw (e, eq_self p) in
            let v : (if p == h then k else next_in h k ks) ≡ k = rw x in
            rw x (
              subst (λ z. z ≤ (f' n).start) r lo,
              subst (λ z. (f' z).hole_follows ≡ ltb pe (f' n).start) e
                  (subst (λ z. (f' h).hole_follows ≡ ltb z (f' n).start) r flag),
              al,
              sz,
              Chain-from f f' hi pe p ((f' n).start + (f' n).size) n (k ∷ ks)
                  (subst (λ z. (f' n).start + (f' n).size ≤ (f z).start) v up)
                  (subst (λ z. (f' n).hole_follows ≡ ltb ((f' n).start + (f' n).size) (f z).start) v
                    more)
                  (λ j has_j.
                    put.same j
                      (has-ne j h (k ∷ ks) has_j (subst (λ z. has z (k ∷ ks) ≡ false) (sym e) ds.0))
                      (has-ne j n (k ∷ ks) has_j (ground arith)))
                  (a, b, d, g, c),
            )
        | inr x ↦
            let v : (if p == h then k else next_in h k ks) ≡ next_in h k ks = rw x in
            let ne : k ≢ n = ground arith in
            let q = end_of_next f pe p k h (ground arith) in
            let s = Put-keeps k ne in
            rw x (
              subst (λ z. pe ≤ z) (sym s.0) a,
              subst (λ z. (f' p).hole_follows ≡ ltb pe z) (sym s.0)
                  (ap (λ (z : Node). z.hole_follows) (put.same p (ground arith) (ground arith))
                    ∙ b),
              s.2 ∙ d,
              subst (λ z. 1 ≤ z) (sym s.1) g,
              subst (λ z. Chain f' hi z k (insert_in h n k ks)) (rw (s.0, s.1))
                  (Chain-insert_in ((f k).start + (f k).size) k ks ds.1 (ground arith)
                    (ground arith) head
                    (subst (λ z. (f' h).hole_follows ≡ ltb z (f' n).start) (sym q) flag)
                    (subst (λ z. (f' n).hole_follows ≡ ltb ((f' n).start + (f' n).size) (f z).start)
                      v more)
                    al sz (subst (λ z. z ≤ (f' n).start) (sym q) lo)
                    (subst (λ z. (f' n).start + (f' n).size ≤ (f z).start) v up) c),
            )
      ]
