-- ===== src/Buddy/Valid/Pages.antt =====
-- Blocks that are held, by their pages.
use my_posts.Prelude.{ℕ, ◌+◌, ◌^◌, inl, inr, arith, Bool, Bool-cases, leb, leb→le, two_pow-pos}
use my_posts.Buddy.{Zone}
use my_posts.Buddy.Valid.{IsBlock, IsHeld, IsFree, IsIn, IsApart}

-- Blocks without a common page are apart.
pub pages-IsApart : (p o q k : ℕ) → ((n : ℕ) → IsIn p o n → ¬ (IsIn q k n)) → IsApart p o q k
unfolding IsIn IsApart
pages-IsApart p o q k none_of =
    let a = two_pow-pos o in
    let b = two_pow-pos k in
    elim (Bool-cases (leb p q)) [
      | inl x ↦
          let le = leb→le p q x in
          elim (Bool-cases (leb (p + 2 ^ o) q)) [
            | inl y ↦ inl (leb→le (p + 2 ^ o) q y)
            | inr y ↦ absurd (none_of q (le, ground (arith, y)) (omega arith, omega (arith, b)))
          ]
      | inr x ↦ elim (Bool-cases (leb (q + 2 ^ k) p)) [
        | inl y ↦ inr (leb→le (q + 2 ^ k) p y)
        | inr y ↦
            absurd
              (none_of p (omega arith, omega (arith, a)) (ground (arith, x), ground (arith, y)))
      ]
    ]

pub apart-pages : (p o q k n : ℕ) → IsApart p o q k → IsIn p o n → ¬ (IsIn q k n)
unfolding IsIn IsApart
apart-pages p o q k n apart i j = ground (arith, apart, i, j)

module _ (valid : ℕ → Bool) (zone_id : ℕ → ℕ) (z : Zone) (p o : ℕ) where
  pub pages-IsHeld :
      IsBlock valid zone_id p o
      → ((n : ℕ) → IsIn p o n → ¬ (IsFree z n))
      → IsHeld valid zone_id z p o
  unfolding IsFree
  pages-IsHeld block none_of = record {
    block = block;
    apart = λ q k h. pages-IsApart p o q k (λ n i j. none_of n i (q, k, h, j));
  }

  pub held-pages : IsHeld valid zone_id z p o → (n : ℕ) → IsIn p o n → ¬ (IsFree z n)
  unfolding IsFree
  held-pages held n i f = let (q, k, h, j) = f in apart-pages p o q k n (held.apart q k h) i j
