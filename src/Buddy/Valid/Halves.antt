-- ===== src/Buddy/Valid/Halves.antt =====
-- A block and its buddy against the block of the next order that they make.
use mathlib.Core.Path.{subst}
use my_posts.Prelude.{
  none, Option-cases, sym, ltb, ltb→lt, Bool-cases, ℕ, suc, ◌+◌, ◌^◌, ◌≤◌, ◌<◌, ◌≡◌, ◌↔◌, ◌⊎◌, inl,
  inr, arith, some, two_pow-pos, Bool,
}
use my_posts.Buddy.{Zone, max_order}
use my_posts.Buddy.Pair.{lower_half, buddy, combined, IsPair, buddy-IsPair}
use my_posts.Buddy.Valid.{IsTiled, IsHeld, IsIn, IsApart, drop_block}
use my_posts.Buddy.Valid.Drop.{kept-drop}

pub halves-IsIn :
    (p o n : ℕ) → IsPair p o → IsIn (combined p o) (suc o) n ↔ (IsIn p o n ⊎ IsIn (buddy p o) o n)
unfolding IsIn
halves-IsIn p o n pair = (
  λ i.
      let (a, b) = i in
      elim pair.halves [
        | inl (e, f) ↦ elim (Bool-cases (ltb n (p + 2 ^ o))) [
          | inl x ↦ inl (omega (arith, a, f), ltb→lt n (p + 2 ^ o) x)
          | inr x ↦
              let c : p + 2 ^ o ≤ n = ground (arith, x) in
              inr (omega (arith, c, e), omega (arith, b, e, f, pair.double))
        ]
        | inr (e, f) ↦ elim (Bool-cases (ltb n p)) [
          | inl x ↦ let c : n < p = ltb→lt n p x in inr (omega (arith, a, f), omega (arith, c, e))
          | inr x ↦
              let c : p ≤ n = ground (arith, x) in inl (c, omega (arith, b, e, f, pair.double))
        ]
      ],
  λ i. elim pair.halves [
    | inl (e, f) ↦ elim i [
      | inl (a, b) ↦ (omega (arith, f, a), omega (arith, f, b, pair.double))
      | inr (a, b) ↦ (omega (arith, e, f, a), omega (arith, e, f, b, pair.double))
    ]
    | inr (e, f) ↦ elim i [
      | inl (a, b) ↦ (omega (arith, e, f, a), omega (arith, e, f, b, pair.double))
      | inr (a, b) ↦ (omega (arith, f, a), omega (arith, f, b, pair.double))
    ]
  ],
)

-- What is apart from both is apart from the block that they make.
join-IsApart :
    (p o r l : ℕ)
    → IsPair p o
    → IsApart p o r l
    → IsApart (buddy p o) o r l
    → IsApart (combined p o) (suc o) r l
unfolding IsApart
join-IsApart p o r l pair a b =
    let pos = two_pow-pos l in ground (arith, pos, pair.halves, pair.double, a, b)

module _ (valid : ℕ → Bool) (zone_id : ℕ → ℕ) (z : Zone) (p o : ℕ) where
  pub join-IsHeld :
      IsTiled valid zone_id z
      → IsHeld valid zone_id z p o
      → z.order (buddy p o) ≡ some o
      → suc o < max_order
      → IsHeld valid zone_id (drop_block z (buddy p o) o) (combined p o) (suc o)
  join-IsHeld tiled held e lt =
      let pair = buddy-IsPair p o (omega (arith, lt)) held.block.aligned in
      record {
        block = record {
          order = lt;
          aligned = pair.aligned;
          whole = λ n i. elim ((halves-IsIn p o n pair).0 i) [
            | inl j ↦ held.block.whole n j
            | inr j ↦ (tiled.block (buddy p o) o e).whole n j
          ];
        };
        apart = λ r l h.
            let (ne, i) = kept-drop z (buddy p o) o r l h in
            join-IsApart p o r l pair (held.apart r l i)
              (tiled.apart (buddy p o) o r l e i (λ w. ne (sym w)));
      }

  -- A block that is held is not free.
  pub held-order : IsHeld valid zone_id z p o → z.order p ≡ none
  unfolding IsApart
  held-order held = elim (Option-cases (z.order p)) [
    | inl e ↦ e
    | inr (k, e) ↦
        let a = two_pow-pos o in
        let b = two_pow-pos k in absurd (ground (arith, held.apart p k e, a, b))
  ]

-- Part of what is apart from a block.
part-IsApart :
    (p o r l : ℕ)
    → IsPair p o
    → IsApart (combined p o) (suc o) r l
    → IsApart p o r l × IsApart (buddy p o) o r l
unfolding IsApart
part-IsApart p o r l pair a =
    let pos = two_pow-pos o in
    (ground (arith, pair.halves, pair.double, a), ground (arith, pair.halves, pair.double, a))

module _ (valid : ℕ → Bool) (zone_id : ℕ → ℕ) (z : Zone) (p o : ℕ)
    (held : IsHeld valid zone_id z p (suc o)) where
  -- The halves of a block that is held are held.
  pub lower-IsHeld : IsHeld valid zone_id z p o
  lower-IsHeld =
      let lt : o < 10 = omega (arith, held.block.order) in
      let (a, at, same) = lower_half p o lt held.block.aligned in
      let pair = buddy-IsPair p o lt a in
      record {
        block = record {
          order = omega (arith, lt);
          aligned = a;
          whole = λ n i.
              held.block.whole n
                (subst (λ t. IsIn t (suc o) n) same ((halves-IsIn p o n pair).1 (inl i)));
        };
        apart = λ q k h.
            (part-IsApart p o q k pair
              (subst (λ t. IsApart t (suc o) q k) (sym same) (held.apart q k h))).0;
      }

  pub upper-IsHeld : IsHeld valid zone_id z (p + 2 ^ o) o
  upper-IsHeld =
      let lt : o < 10 = omega (arith, held.block.order) in
      let (a, at, same) = lower_half p o lt held.block.aligned in
      let pair = buddy-IsPair p o lt a in
      subst (λ t. IsHeld valid zone_id z t o) at
        (record {
          block = record {
            order = omega (arith, lt);
            aligned = pair.buddy_aligned;
            whole = λ n i.
                held.block.whole n
                  (subst (λ t. IsIn t (suc o) n) same ((halves-IsIn p o n pair).1 (inr i)));
          };
          apart = λ q k h.
              (part-IsApart p o q k pair
                (subst (λ t. IsApart t (suc o) q k) (sym same) (held.apart q k h))).1;
        })

pub lower-IsApart : (p o : ℕ) → IsApart p o (p + 2 ^ o) o
unfolding IsApart
lower-IsApart p o = inl (omega arith)
