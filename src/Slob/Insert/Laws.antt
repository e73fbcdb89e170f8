-- ===== src/Slob/Insert/Laws.antt =====
-- A block inserted where nothing is free keeps the list in order and adds just its units.
use native.Mathlib.Decide.{dec_le, dec_lt}
use my_posts.Prelude.{
  ℕ, ◌+◌, ◌≤◌, ◌<◌, ◌≡◌, refl, ◌⊎◌, inl, inr, ◌↔◌, List, [], ◌∷◌, arith, ltb, ◌==◌, Bool-cases,
}
use my_posts.Slob.Block.{page_units, Ptr, base}
use my_posts.Slob.FreeList.{Block, Ordered, Ordered-weaken, Free, total}
use my_posts.Slob.Insert.{join, insert}

-- No unit of the `u` units at `b` is free.
abbrev pub Taken : Ptr → ℕ → List Block → Type 0
Taken b u bs = (x : Ptr) → b ≤ x → x < b + u → Free x bs → ⊥

-- A block that starts behind another one starts behind its end.
pub behind_block :
    (b u a s : ℕ) (bs : List Block) → 1 ≤ u → Taken b u ((a, s) ∷ bs) → a ≤ b → a + s ≤ b
behind_block b u a s bs p t h = elim (dec_le (a + s) b) [
  | yes k ↦ k
  | no k ↦ absurd (t b (omega arith) (omega arith) (inl (h, omega arith)))
]

-- A block that starts in front of another one ends in front of it.
pub front_of_block :
    (b u a s : ℕ) (bs : List Block) → 1 ≤ s → Taken b u ((a, s) ∷ bs) → b ≤ a → b + u ≤ a
front_of_block b u a s bs p t h = elim (dec_le (b + u) a) [
  | yes k ↦ k
  | no k ↦ absurd (t a (omega arith) (omega arith) (inl (omega arith, omega arith)))
]

swap : {A B C : Type 0} → A ⊎ B ⊎ C → B ⊎ A ⊎ C
swap (inl a) = inr (inl a)
swap (inr (inl b)) = inl b
swap (inr (inr c)) = inr (inr c)

inner : {A B C : Type 0} → (B → C) → A ⊎ B → A ⊎ C
inner f (inl a) = inl a
inner f (inr b) = inr (f b)

module _ (n : ℕ) where
  pub join-Ordered :
      (lo a s : ℕ) (bs : List Block)
      → lo ≤ a
      → 1 ≤ s
      → a + s ≤ base n + page_units
      → Ordered n (a + s) bs
      → Ordered n lo (join a s bs)
  unfolding join
  join-Ordered lo a s [] h p e o = omega arith
  join-Ordered lo a s ((c, t) ∷ bs) h p e o = elim (Bool-cases (a + s == c)) [
    | inl z ↦ rw z (h, omega arith, Ordered-weaken n _ _ bs (ground arith) o.2)
    | inr z ↦ rw z (h, p, (ground arith, o.1, o.2))
  ]

  join-Free :
      (a s x : ℕ) (bs : List Block) → Free x (join a s bs) ↔ (((a ≤ x) × (x < a + s)) ⊎ Free x bs)
  unfolding join
  join-Free a s x [] = (λ h. h, λ h. h)
  join-Free a s x ((c, t) ∷ bs) = elim (Bool-cases (a + s == c)) [
    | inl z ↦ rw z (apart (ground arith), merge (ground arith))
    | inr z ↦ rw z (λ h. h, λ h. h)
  ]
    where
      apart :
          a + s ≡ c
          → ((a ≤ x) × (x < a + (s + t))) ⊎ Free x bs
          → ((a ≤ x) × (x < a + s)) ⊎ Free x ((c, t) ∷ bs)
      apart e (inl h) = elim (dec_lt x (a + s)) [
        | yes k ↦ inl (h.0, k)
        | no k ↦ inr (inl (omega arith))
      ]
      apart e (inr h) = inr (inr h)

      merge :
          a + s ≡ c
          → ((a ≤ x) × (x < a + s)) ⊎ Free x ((c, t) ∷ bs)
          → ((a ≤ x) × (x < a + (s + t))) ⊎ Free x bs
      merge e (inl h) = inl (omega arith)
      merge e (inr (inl h)) = inl (omega arith)
      merge e (inr (inr h)) = inr h

  total-join : (a s : ℕ) (bs : List Block) → total (join a s bs) ≡ s + total bs
  unfolding join
  total-join a s [] = refl
  total-join a s ((c, t) ∷ bs) = ground arith

  pub insert-Ordered :
      (lo b u : ℕ) (bs : List Block)
      → lo ≤ b
      → 1 ≤ u
      → b + u ≤ base n + page_units
      → Taken b u bs
      → Ordered n lo bs
      → Ordered n lo (insert b u bs)
  unfolding insert
  insert-Ordered lo b u [] h p e t o = omega arith
  insert-Ordered lo b u ((a, s) ∷ bs) h p e t o = elim (Bool-cases (ltb b a)) [
    | inl z ↦ rw z (
        join-Ordered lo b u ((a, s) ∷ bs) h p e
          (front_of_block b u a s bs o.1 t (ground arith), o.1, o.2))
    | inr z ↦
        let g = behind_block b u a s bs p t (ground arith) in
        rw z (
          join-Ordered lo a s (insert b u bs) o.0 o.1 (omega arith) (
            insert-Ordered (a + s) b u bs g p e (λ x q r f. t x q r (inr f))
              (Ordered-weaken n _ _ bs (omega arith) o.2)))
  ]

  pub insert-Free :
      (b u x : ℕ) (bs : List Block) → Free x (insert b u bs) ↔ (((b ≤ x) × (x < b + u)) ⊎ Free x bs)
  unfolding insert
  insert-Free b u x [] = (λ h. h, λ h. h)
  insert-Free b u x ((a, s) ∷ bs) = elim (Bool-cases (ltb b a)) [
    | inl z ↦ rw z (join-Free b u x ((a, s) ∷ bs))
    | inr z ↦
        let j = join-Free a s x (insert b u bs) in
        let r = insert-Free b u x bs in
        rw z (λ h. swap (inner r.0 (j.0 h)), λ h. j.1 (inner r.1 (swap h)))
  ]

  pub total-insert : (b u : ℕ) (bs : List Block) → total (insert b u bs) ≡ u + total bs
  unfolding insert
  total-insert b u [] = refl
  total-insert b u ((a, s) ∷ bs) =
      ground
        (arith, total-join b u ((a, s) ∷ bs), total-join a s (insert b u bs), total-insert b u bs)
