-- ===== src/Slob/FirstFit/Sound.antt =====
-- What first fit takes out of a page's free list, and what it leaves.
use my_posts.Prelude.{
  ℕ, ◌+◌, ◌-◌, ◌≤◌, ◌<◌, ◌≡◌, ◌⊎◌, inl, inr, ◌↔◌, List, ◌∷◌, arith, ◌==◌, Bool-cases,
}
use my_posts.Slob.Block.{Ptr}
use my_posts.Slob.FreeList.{Block, Ordered, Ordered-weaken, Free, Free_bounds, total}
use my_posts.Slob.FirstFit.{piece, pieces}

-- `units` units at `p` are taken out of the free list `bs`, and `bs'` is left.
pub record Takes (n units : ℕ) (lo : Ptr) (bs : List Block) (p : Ptr) (bs' : List Block)
    : Type 0 where
  pub ordered : Ordered n lo bs'
  pub was_free : (x : Ptr) → p ≤ x → x < p + units → Free x bs
  pub leaves : (x : Ptr) → Free x bs' ↔ Free x bs × ((x < p) ⊎ (p + units ≤ x))
  pub counted : total bs' + units ≡ total bs
  pub from : lo ≤ p

piece-Ordered :
    (n lo a s : ℕ) (bs : List Block)
    → lo ≤ a
    → Ordered n (a + s + 1) bs
    → Ordered n lo (piece a s bs)
piece-Ordered n lo a s bs h o = elim (Bool-cases (s == 0)) [
  | inl z ↦ rw z (Ordered-weaken n _ lo bs (omega arith) o)
  | inr z ↦ rw z (h, ground arith, o)
]

piece-Free :
    (a s x : ℕ) (bs : List Block) → Free x (piece a s bs) ↔ (((a ≤ x) × (x < a + s)) ⊎ Free x bs)
piece-Free a s x bs = elim (Bool-cases (s == 0)) [
  | inl z ↦ rw z (inr, back (ground arith))
  | inr z ↦ rw z (λ h. h, λ h. h)
]
  where
    back : s ≡ 0 → ((a ≤ x) × (x < a + s)) ⊎ Free x bs → Free x bs
    back z (inl h) = absurd (omega arith)
    back z (inr h) = h

module _ (n lo a s d units : ℕ) (bs : List Block) (u : 1 ≤ units) (room : units + d ≤ s) where
  pieces-Ordered : Ordered n lo ((a, s) ∷ bs) → Ordered n lo (pieces a s d units bs)
  pieces-Ordered o = piece-Ordered n lo a d _ o.0 (
      piece-Ordered n (a + d + 1) (a + d + units) (s - d - units) bs (omega arith)
        (Ordered-weaken n _ _ bs (omega arith) o.2))

  pieces-Free :
      (x : Ptr)
      → Ordered n lo ((a, s) ∷ bs)
      → Free x (pieces a s d units bs) ↔ Free x ((a, s) ∷ bs) × ((x < a + d) ⊎ (a + d + units ≤ x))
  pieces-Free x o =
      let p = piece-Free a d x (piece (a + d + units) (s - d - units) bs) in
      let q = piece-Free (a + d + units) (s - d - units) x bs in
      (λ h. there (p.0 h) q.0, λ h. p.1 (back q.1 h.0 h.1))
    where
      there :
          ((a ≤ x) × (x < a + d)) ⊎ Free x (piece (a + d + units) (s - d - units) bs)
          → (Free x (piece (a + d + units) (s - d - units) bs)
              → ((a + d + units ≤ x) × (x < a + d + units + (s - d - units))) ⊎ Free x bs)
          → Free x ((a, s) ∷ bs) × ((x < a + d) ⊎ (a + d + units ≤ x))
      there (inl h) q = (inl (omega arith), inl h.1)
      there (inr h) q = elim (q h) [
        | inl g ↦ (inl (omega arith), inr g.0)
        | inr g ↦ (inr g, inr (let r = Free_bounds n (a + s + 1) x bs o.2 g in omega arith))
      ]

      back :
          (((a + d + units ≤ x) × (x < a + d + units + (s - d - units))) ⊎ Free x bs
            → Free x (piece (a + d + units) (s - d - units) bs))
          → ((a ≤ x) × (x < a + s)) ⊎ Free x bs
          → (x < a + d) ⊎ (a + d + units ≤ x)
          → ((a ≤ x) × (x < a + d)) ⊎ Free x (piece (a + d + units) (s - d - units) bs)
      back q (inr h) out = inr (q (inr h))
      back q (inl h) (inl g) = inl (h.0, g)
      back q (inl h) (inr g) = inr (q (inl (g, omega arith)))

  total-pieces : total (pieces a s d units bs) + units ≡ s + total bs
  total-pieces = ground arith

  pub pieces-Takes :
      Ordered n lo ((a, s) ∷ bs) → Takes n units lo ((a, s) ∷ bs) (a + d) (pieces a s d units bs)
  pieces-Takes o = record {
    ordered = pieces-Ordered o;
    was_free = λ x p q. inl (omega arith);
    leaves = λ x. pieces-Free x o;
    counted = total-pieces;
    from = omega (arith, o.0);
  }

pub keep-Takes :
    (n units lo a s p : ℕ) (bs bs' : List Block)
    → Ordered n lo ((a, s) ∷ bs)
    → Takes n units (a + s + 1) bs p bs'
    → Takes n units lo ((a, s) ∷ bs) p ((a, s) ∷ bs')
keep-Takes n units lo a s p bs bs' o t = record {
  ordered = (o.0, o.1, t.ordered);
  was_free = λ x h k. inr (t.was_free x h k);
  leaves = λ x. (there x, λ h. back x h.0 h.1);
  counted = omega (arith, t.counted);
  from = omega (arith, o.0, t.from);
}
  where
    there : (x : Ptr) → Free x ((a, s) ∷ bs') → Free x ((a, s) ∷ bs) × ((x < p) ⊎ (p + units ≤ x))
    there x (inl h) = (inl h, inl (omega (arith, t.from)))
    there x (inr h) = let r = (t.leaves x).0 h in (inr r.0, r.1)

    back : (x : Ptr) → Free x ((a, s) ∷ bs) → (x < p) ⊎ (p + units ≤ x) → Free x ((a, s) ∷ bs')
    back x (inl h) out = inl h
    back x (inr h) out = inr ((t.leaves x).1 (h, out))
