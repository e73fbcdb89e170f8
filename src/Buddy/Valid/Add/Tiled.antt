-- ===== src/Buddy/Valid/Add/Tiled.antt =====
-- The free blocks with one more, which has no free buddy.
use my_posts.Prelude.{
  two_pow-pos, ℕ, suc, ◌<◌, ◌≡◌, sym, ap, ◌∙◌, ◌≢◌, inl, inr, arith, Bool, true, false, not,
  Bool-cases, some, List, ◌==◌, set-other, if◌then◌else◌,
}
use my_posts.Buddy.{Zone, has_order, page_is_buddy, max_order}
use my_posts.Buddy.Pair.{buddy, IsPair, buddy-IsPair}
use my_posts.Buddy.Valid.{IsTiled, IsHeld, IsIn, IsApart, add_block}
use my_posts.Buddy.Valid.Add.{new-add}

start-IsIn : (p o : ℕ) → IsIn p o p
unfolding IsIn
start-IsIn p o = let pos = two_pow-pos o in (omega arith, omega arith)

buddy-other : (p o : ℕ) → IsPair p o → buddy p o ≢ p
buddy-other p o pair e =
    let pos = two_pow-pos o in
    elim pair.halves [ inl (a, b) ↦ omega (arith, a, e) | inr (a, b) ↦ omega (arith, a, e) ]

module _ (valid : ℕ → Bool) (zone_id : ℕ → ℕ) (z : Zone) (p o mt : ℕ) (pages : List ℕ) where
  is_buddy-add :
      (a b k : ℕ)
      → b ≢ p
      → page_is_buddy valid zone_id (add_block z p o mt pages) a b k
        ≡ page_is_buddy valid zone_id z a b k
  unfolding page_is_buddy
  is_buddy-add a b k ne =
      ap
        (λ x.
          if not (valid b)
          then false
          else (if not (zone_id a == zone_id b) then false else has_order x k))
        (set-other z.order p b (some o) ne)

  -- Buddies are symmetric.
  is_buddy-back :
      (q k : ℕ)
      → valid q ≡ true
      → buddy p k ≡ q
      → z.order q ≡ some k
      → (k ≡ o → page_is_buddy valid zone_id z p (buddy p k) k ≡ false)
      → page_is_buddy valid zone_id (add_block z p o mt pages) q p k ≡ false
  unfolding page_is_buddy
  is_buddy-back q k v e h apart = elim (Bool-cases (k == o)) [
    | inl x ↦
        let differ : page_is_buddy valid zone_id z p q k ≡ false =
          ap (λ t. page_is_buddy valid zone_id z p t k) (sym e) ∙ apart (ground (arith, x)) in
        ground (arith, differ, v, h)
    | inr x ↦ ground (arith, x)
  ]

  maximal-add :
      IsTiled valid zone_id z
      → IsHeld valid zone_id z p o
      → (suc o < max_order → page_is_buddy valid zone_id z p (buddy p o) o ≡ false)
      → (q k : ℕ) → (add_block z p o mt pages).order q ≡ some k
      → suc k < max_order
      → page_is_buddy valid zone_id (add_block z p o mt pages) q (buddy q k) k ≡ false
  maximal-add tiled held apart q k h lt = elim (new-add z p o mt q k pages h) [
    | inl (e, i) ↦
        let lt' : suc o < max_order = omega (arith, i, lt) in
        rw (e, i)
          (is_buddy-add p (buddy p o) o
              (buddy-other p o (buddy-IsPair p o (omega (arith, lt')) held.block.aligned))
            ∙ apart lt')
    | inr (ne, i) ↦ elim (Bool-cases (buddy q k == p)) [
      | inl x ↦
          let block = tiled.block q k i in
          let e : buddy q k ≡ p = ground (arith, x) in
          let pair = buddy-IsPair q k (omega (arith, lt)) block.aligned in
          let back : buddy p k ≡ q = ap (λ t. buddy t k) (sym e) ∙ pair.back in
          let v = block.whole q (start-IsIn q k) in
          ap (λ t. page_is_buddy valid zone_id (add_block z p o mt pages) q t k) e
          ∙ is_buddy-back q k v back i (λ w.
            ap (λ t. page_is_buddy valid zone_id z p (buddy p t) t) w
            ∙ apart (omega (arith, w, lt)))
      | inr x ↦ is_buddy-add q (buddy q k) k (λ w. ground (arith, w, x)) ∙ tiled.maximal q k i lt
    ]
  ]

  pub add-IsTiled :
      IsTiled valid zone_id z
      → IsHeld valid zone_id z p o
      → (suc o < max_order → page_is_buddy valid zone_id z p (buddy p o) o ≡ false)
      → IsTiled valid zone_id (add_block z p o mt pages)
  unfolding IsApart
  add-IsTiled tiled held apart = record {
    block = λ q k h. elim (new-add z p o mt q k pages h) [
      | inl (e, i) ↦ rw (e, i) held.block
      | inr (ne, i) ↦ tiled.block q k i
    ];
    apart = λ q k r l h i ne. elim (new-add z p o mt q k pages h) [
      | inl (e, e') ↦ elim (new-add z p o mt r l pages i) [
        | inl (f, f') ↦ absurd (ne (e ∙ sym f))
        | inr (nf, j) ↦ rw (e, e') (held.apart r l j)
      ]
      | inr (nq, h') ↦ elim (new-add z p o mt r l pages i) [
        | inl (f, f') ↦ rw (f, f') (elim (held.apart q k h') [ inl a ↦ inr a | inr a ↦ inl a ])
        | inr (nf, j) ↦ tiled.apart q k r l h' j ne
      ]
    ];
    maximal = maximal-add tiled held apart;
  }

-- A block in hand that is apart from the new one stays so.
pub IsHeld-add_block :
    (valid : ℕ → Bool) (zone_id : ℕ → ℕ) (z : Zone) (p o mt q k : ℕ) (pages : List ℕ)
    → IsHeld valid zone_id z q k
    → IsApart q k p o
    → IsHeld valid zone_id (add_block z p o mt pages) q k
IsHeld-add_block valid zone_id z p o mt q k pages held apart = record {
  block = held.block;
  apart = λ r l h. elim (new-add z p o mt r l pages h) [
    | inl (e, i) ↦ rw (e, i) apart
    | inr (ne, i) ↦ held.apart r l i
  ];
}
