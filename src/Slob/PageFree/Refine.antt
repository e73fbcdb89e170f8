-- ===== src/Slob/PageFree/Refine.antt =====
-- Freeing a block into a page inserts it into the list that the memory encodes.
use native.Mathlib.Nat.{add_comm}
use my_posts.Prelude.{
  ℕ, zero, suc, ◌+◌, ◌≤◌, ◌<◌, ◌≡◌, ◌≢◌, refl, ◌⊎◌, inl, inr, ◌∙◌, false, Option, some, List, [],
  ◌∷◌, arith, ltb, ◌==◌, length, lt→ne, eq_self, le→ltb_false, Bool-cases,
}
use my_posts.Slob.Block.{
  page_units, Ptr, Mem, set_slob, slob_units, base, Fits, set_slob-Header, set_slob_outside,
  slob_units-Header, slob_next-Header, slob_last-Header, Header-frame,
}
use my_posts.Slob.FreeList.{
  Block, first, Encodes, Ordered, Ordered-weaken, length-le, first_bounds, Fits-cons, Encodes-frame,
}
use my_posts.Slob.Insert.{join, insert}
use my_posts.Slob.Insert.Laws.{Taken, behind_block, front_of_block, join-Ordered}
use my_posts.Slob.PageFree.{free_front, join_next, join_prev, free_behind, page_free}

-- The memory holds the list `bs`, and differs from `m` in the page from `lo` on only.
pub record Holds (m : Mem) (n : ℕ) (lo : Ptr) (bs : List Block) (m' : Mem) : Type 0 where
  pub encodes : Encodes m' n bs
  pub same : (q : Ptr) → (q < lo) ⊎ (base n + page_units ≤ q) → m' q ≡ m q

-- A block is written in front of a list that it does not touch.
write_front :
    (m : Mem) (n b size : ℕ) (bs : List Block)
    → base n ≤ b
    → 1 ≤ size
    → Ordered n (b + size + 1) bs
    → Encodes m n bs
    → Holds m n b ((b, size) ∷ bs) (set_slob m b size (first n bs))
write_front m n b size bs inside s o e =
    let q = first_bounds n (b + size) bs o in
    let f : Fits n b size (first n bs) = omega arith in
    let w = set_slob_outside m n b size (first n bs) f in
    record {
      encodes = (
        set_slob-Header m n b size (first n bs) f,
        Encodes-frame n m _ (b + size + 1) bs (λ x h k. w x (inr (omega arith))) o e,
      );
      same = λ x h. w x (ground arith);
    }

module _ (m : Mem) (n b u : ℕ) (p : 1 ≤ u) (inside : base n ≤ b)
    (ends : b + u ≤ base n + page_units) where
  -- `b` is the first block of the page.
  free_front-Holds :
      (a s : ℕ) (bs : List Block)
      → b < a
      → Taken b u ((a, s) ∷ bs)
      → Ordered n (base n) ((a, s) ∷ bs)
      → Encodes m n ((a, s) ∷ bs)
      → Holds m n b (join b u ((a, s) ∷ bs)) (free_front m a b u).0 × ((free_front m a b u).1 ≡ b)
  unfolding free_front join
  free_front-Holds a s bs less t o e =
      let f = Fits-cons n a s bs o.0 (omega arith, o.1, o.2) in
      let g = front_of_block b u a s bs o.1 t (omega arith) in
      let su = slob_units-Header m n a s (first n bs) f e.0 in
      let sn = slob_next-Header m n a s (first n bs) f e.0 in
      elim (Bool-cases (b + u == a)) [
        | inl z ↦
            rw (z, su, sn)
              (
                write_front m n b (u + s) bs inside (omega arith)
                    (Ordered-weaken n _ _ bs (ground arith) o.2) e.1,
                refl,
              )
        | inr z ↦ rw z (write_front m n b u ((a, s) ∷ bs) inside p (ground arith, o.1, o.2) e, refl)
      ]

  -- `b` in front of the list behind `prev`.
  join_next-Holds :
      (a s : ℕ) (bs : List Block)
      → b < first n bs
      → Taken b u bs
      → a + s ≤ b
      → base n ≤ a
      → 1 ≤ s
      → Ordered n (a + s + 1) bs
      → Encodes m n ((a, s) ∷ bs)
      → Holds m n b (join b u bs) (join_next m a (first n bs) b u)
  unfolding join_next join
  join_next-Holds a s [] less t g i ps o e =
      let f = Fits-cons n a s [] i (omega arith, ps, o) in
      let sl = slob_last-Header m n a s (first n []) f e.0 in
      rw (sl, eq_self (base n + page_units)) (write_front m n b u [] inside p (omega arith) e.1)
  join_next-Holds a s ((c, t) ∷ bs) less tk g i ps o e =
      let f = Fits-cons n a s ((c, t) ∷ bs) i (omega arith, ps, o) in
      let f₂ = Fits-cons n c t bs (omega arith) (omega arith, o.1, o.2) in
      let sl = slob_last-Header m n a s c f e.0 in
      let su = slob_units-Header m n c t (first n bs) f₂ e.1.0 in
      let sn = slob_next-Header m n c t (first n bs) f₂ e.1.0 in
      let k = front_of_block b u c t bs o.1 tk (omega arith) in
      let not_last : (c == base n + page_units) ≡ false =
        lt→ne c _ (omega (arith, f₂.before, f₂.ends)) in
      elim (Bool-cases (b + u == c)) [
        | inl z ↦
            rw (sl, not_last, z, su, sn)
              (write_front m n b (u + t) bs inside (omega arith)
                (Ordered-weaken n _ _ bs (ground arith) o.2) e.1.1)
        | inr z ↦
            rw (sl, not_last, z)
              (write_front m n b u ((c, t) ∷ bs) inside p (ground arith, o.1, o.2) e.1)
      ]

-- A list whose first block is `b` is linked behind the block at `a`, or joined with it.
join_prev-Holds :
    (m : Mem) (n a s b : ℕ) (js : List Block)
    → first n js ≡ b
    → b < base n + page_units
    → base n ≤ a
    → 1 ≤ s
    → a + s ≤ b
    → slob_units m a ≡ s
    → Ordered n b js
    → Encodes m n js
    → Holds m n a (join a s js) (join_prev m a b) × (first n (join a s js) ≡ a)
unfolding join_prev join
join_prev-Holds m n a s b [] fe less i ps g su o e = absurd (omega arith)
join_prev-Holds m n a s b ((c, z) ∷ bs) fe less i ps g su o e =
    let f = Fits-cons n c z bs (omega arith) (omega arith, o.1, o.2) in
    let cu = slob_units-Header m n c z (first n bs) f e.0 in
    let cn = slob_next-Header m n c z (first n bs) f e.0 in
    rw (← fe) (elim (Bool-cases (a + s == c)) [
      | inl y ↦
          let tail : Ordered n (a + (s + z) + 1) bs = Ordered-weaken n _ _ bs (ground arith) o.2 in
          let w = write_front m n a (s + z) bs i (omega arith) tail e.1 in
          rw (su, y, cu, cn, add_comm z s) (w, refl)
      | inr y ↦
          let w = write_front m n a s ((c, z) ∷ bs) i ps (ground arith, o.1, o.2) e in
          rw (su, y) (w, refl)
    ])

first-join : (n b u : ℕ) (bs : List Block) → first n (join b u bs) ≡ b
unfolding join
first-join n b u [] = refl
first-join n b u ((c, t) ∷ bs) = ground arith

-- No join where there is a gap.
join_apart : (n a s : ℕ) (js : List Block) → a + s < first n js → join a s js ≡ (a, s) ∷ js
unfolding join
join_apart n a s [] h = refl
join_apart n a s ((c, t) ∷ bs) h = rw (lt→ne (a + s) c h)

insert_front : (n b u : ℕ) (bs : List Block) → b < first n bs → insert b u bs ≡ join b u bs
unfolding insert
insert_front n b u [] h = unfold join in refl
insert_front n b u ((a, s) ∷ bs) h = ground arith

insert_behind :
    (b u a s : ℕ) (bs : List Block) → a < b → insert b u ((a, s) ∷ bs) ≡ join a s (insert b u bs)
unfolding insert
insert_behind b u a s bs h = ground arith

-- A list that starts behind `b` starts behind the whole block.
Ordered-from :
    (n b u lo : ℕ) (bs : List Block)
    → 1 ≤ u
    → b + u ≤ base n + page_units
    → Ordered n lo bs
    → Taken b u bs
    → b < first n bs
    → Ordered n (b + u) bs
Ordered-from n b u lo [] p e o t h = omega arith
Ordered-from n b u lo ((c, z) ∷ bs) p e o t h =
    (front_of_block b u c z bs o.1 t (omega arith), o.1, o.2)

module _ (m : Mem) (n b u : ℕ) (p : 1 ≤ u) (inside : base n ≤ b)
    (ends : b + u ≤ base n + page_units) where
  -- What the loop leaves behind a first block at `a`.
  record Freed (a s : ℕ) (bs : List Block) (r : Option Mem) : Type 0 where
    mem : Mem
    result : r ≡ some mem
    holds : Holds m n a (insert b u ((a, s) ∷ bs)) mem
    leads : first n (insert b u ((a, s) ∷ bs)) ≡ a

  -- The loop ends: the block goes in front of `bs`.
  stop :
      (a s : ℕ) (bs : List Block)
      → a < b
      → base n ≤ a
      → 1 ≤ s
      → Ordered n (a + s + 1) bs
      → Encodes m n ((a, s) ∷ bs)
      → Taken b u ((a, s) ∷ bs)
      → b < first n bs
      → Freed a s bs (some (join_prev (join_next m a (first n bs) b u) a b))
  stop a s bs h i ps o e t less =
      let g = behind_block b u a s bs p t (omega arith) in
      let t₂ : Taken b u bs = λ x k l q. t x k l (inr q) in
      let m₁ = join_next m a (first n bs) b u in
      let q = first_bounds n (a + s) bs o in
      let one = join_next-Holds m n b u p inside ends a s bs less t₂ g i ps o e in
      let hd =
        Header-frame m m₁ n a s (first n bs) ps (λ x k l. one.same x (inl (omega arith))) e.0 in
      let su =
        slob_units-Header m₁ n a s (first n bs)
          (record { inside = i; some_units = ps; before = q.0; ends = q.1 }) hd in
      let r =
        join_prev-Holds m₁ n a s b (join b u bs) (first-join n b u bs) (omega arith) i ps g su
          (join-Ordered n b b u bs (omega arith) p ends
            (Ordered-from n b u (a + s + 1) bs p ends o t₂ less))
          one.encodes in
      record {
        mem = join_prev m₁ a b;
        result = refl;
        holds =
            rw (insert_behind b u a s bs h, insert_front n b u bs less)
              (record {
                encodes = r.0.encodes;
                same = λ x k. r.0.same x k ∙ one.same x (ground arith);
              });
        leads = rw (insert_behind b u a s bs h, insert_front n b u bs less) r.1;
      }

  -- The loop goes on behind `c`.
  go_on :
      (a s c z : ℕ) (bs : List Block) (r : Option Mem)
      → a < b
      → base n ≤ a
      → 1 ≤ s
      → Ordered n (a + s + 1) ((c, z) ∷ bs)
      → Encodes m n ((a, s) ∷ (c, z) ∷ bs)
      → Freed c z bs r
      → Freed a s ((c, z) ∷ bs) r
  go_on a s c z bs r h i ps o e d =
      let js = insert b u ((c, z) ∷ bs) in
      let gap : a + s < first n js = rw d.leads (omega (arith, o.0)) in
      record {
        mem = d.mem;
        result = d.result;
        holds =
            rw (insert_behind b u a s ((c, z) ∷ bs) h, join_apart n a s js gap)
              (record {
                encodes = (
                  Header-frame m d.mem n a s (first n js) ps
                      (λ x k l. d.holds.same x (inl (omega arith))) (rw d.leads e.0),
                  d.holds.encodes,
                );
                same = λ x k. d.holds.same x (ground arith);
              });
        leads = rw (insert_behind b u a s ((c, z) ∷ bs) h, join_apart n a s js gap);
      }

  free_behind-Freed :
      (fuel a s : ℕ) (bs : List Block)
      → a < b
      → base n ≤ a
      → 1 ≤ s
      → Ordered n (a + s + 1) bs
      → Encodes m n ((a, s) ∷ bs)
      → Taken b u ((a, s) ∷ bs)
      → length bs < fuel
      → Freed a s bs (free_behind fuel m a b u)
  unfolding free_behind
  free_behind-Freed zero a s bs h i ps o e t f = absurd (omega arith)
  free_behind-Freed (suc fuel) a s [] h i ps o e t f =
      let fits = Fits-cons n a s [] i (omega arith, ps, o) in
      let sn = slob_next-Header m n a s (first n []) fits e.0 in
      rw sn
        (rw (le→ltb_false (first n []) b (omega arith)) (stop a s [] h i ps o e t (omega arith)))
  free_behind-Freed (suc fuel) a s ((c, z) ∷ bs) h i ps o e t f =
      let fits = Fits-cons n a s ((c, z) ∷ bs) i (omega arith, ps, o) in
      let sn = slob_next-Header m n a s c fits e.0 in
      rw sn (elim (Bool-cases (ltb c b)) [
        | inl y ↦ rw y (
            go_on a s c z bs _ h i ps o e (
              free_behind-Freed fuel c z bs (ground arith) (omega arith) o.1 o.2 e.1
                (λ x k l q. t x k l (inr q)) (omega arith)))
        | inr y ↦ rw y (
            stop a s ((c, z) ∷ bs) h i ps o e t (
              omega
                (arith, front_of_block b u c z bs o.1 (λ x k l q. t x k l (inr q)) (ground arith))))
      ])

Holds-widen :
    (m : Mem) (n lo : ℕ) (bs : List Block) (m' : Mem)
    → base n ≤ lo
    → Holds m n lo bs m'
    → Holds m n (base n) bs m'
Holds-widen m n lo bs m' h k = record {
  encodes = k.encodes;
  same = λ q far. k.same q (ground arith);
}

-- What freeing into a page leaves: the memory and `freelist` hold the list with the block inserted.
pub record PageFreed (m : Mem) (n b u : ℕ) (bs : List Block) (r : Option (Mem × Ptr)) : Type 0 where
  pub mem : Mem
  pub result : r ≡ some (mem, first n (insert b u bs))
  pub holds : Holds m n (base n) (insert b u bs) mem

-- `slob_free` into a partially free page ends, and turns the encoding of the page's free list into
-- that of the list with the block inserted in address order and joined with the free blocks that it
-- touches, writing in this page only; the block lies in the page and none of its units was free.
pub page_free-PageFreed :
    (m : Mem) (n b u : ℕ) (bs : List Block)
    → 1 ≤ u
    → base n ≤ b
    → b + u ≤ base n + page_units
    → bs ≢ []
    → Ordered n (base n) bs
    → Encodes m n bs
    → Taken b u bs
    → PageFreed m n b u bs (page_free m (first n bs) b u)
unfolding page_free
page_free-PageFreed m n b u [] p inside ends ne o e t = absurd (ne refl)
page_free-PageFreed m n b u ((a, s) ∷ bs) p inside ends ne o e t = elim (Bool-cases (ltb b a)) [
  | inl y ↦
      let r = free_front-Holds m n b u p inside ends a s bs (ground arith) t o e in
      let f = insert_front n b u ((a, s) ∷ bs) (ground arith) in
      record {
        mem = (free_front m a b u).0;
        result = ground (arith, r.1, f, first-join n b u ((a, s) ∷ bs));
        holds = rw f (Holds-widen m n b _ _ inside r.0);
      }
  | inr y ↦
      let h = behind_block b u a s bs p t (ground arith) in
      let g = length-le n (a + s + 1) bs o.2 in
      let r =
        free_behind-Freed m n b u p inside ends (page_units + 1) a s bs (omega (arith, o.1)) o.0 o.1
          o.2 e t (omega arith) in
      record {
        mem = r.mem;
        result = rw (y, r.result, r.leads);
        holds = Holds-widen m n a _ _ o.0 r.holds;
      }
]
