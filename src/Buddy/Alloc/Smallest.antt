-- ===== src/Buddy/Alloc/Smallest.antt =====
-- The smallest free block that is large enough, __rmqueue_smallest.
use mathlib.Core.Path.{subst}
use my_posts.Prelude.{
  ℕ, zero, suc, ◌+◌, ◌-◌, ◌≤◌, ◌<◌, ◌≡◌, refl, sym, ap, ◌∙◌, inl, inr, arith, Bool, true, ◌&&◌,
  ◌==◌, some, none, List, [], ◌∷◌, has, Option, Bool-cases, List-cases,
}
use my_posts.Buddy.{
  Zone, has_order, max_order, migrate_types, take_block, smallest_from, rmqueue_smallest,
}
use my_posts.Buddy.Valid.{IsValid, IsLinked, drop_block}
use my_posts.Buddy.Valid.Drop.{drop-IsLinked, drop-IsTiled, drop-IsHeld}
use my_posts.Buddy.Alloc.{IsGiven, split-IsGiven, expand-IsSplit}

-- The lists of a migrate type from one order up to another are empty.
unfoldable pub AreEmpty : Zone → (mt low high : ℕ) → Type 0
AreEmpty z mt low high = (k : ℕ) → low ≤ k → k < high → z.free_list k mt ≡ []

module _ (valid : ℕ → Bool) (zone_id : ℕ → ℕ) where
  -- A block of order `o` at `p` is taken from the zone, the first of the list of order `k`.
  pub record IsTaken (z : Zone) (from o mt p : ℕ) (r : Zone) : Type 0 where
    pub k : ℕ
    pub at_least : from ≤ k
    pub rest : List ℕ
    pub first : z.free_list k mt ≡ p ∷ rest
    pub smallest : AreEmpty z mt from k
    pub given : IsGiven valid zone_id z p o r

  -- What a search for a block of order `o` that starts at order `from` returns.
  unfoldable pub Returns : Zone → (from o mt : ℕ) → Option ℕ × Zone → Type 0
  Returns z from o mt (none, r) = (r ≡ z) × AreEmpty z mt from max_order
  Returns z from o mt (some p, r) = IsTaken z from o mt p r

  pub listed-order :
      (z : Zone) (list_of : ℕ → ℕ) (k mt p : ℕ) (rest : List ℕ)
      → IsLinked z list_of
      → z.free_list k mt ≡ p ∷ rest
      → (z.order p ≡ some k) × (list_of p ≡ mt)
  listed-order z list_of k mt p rest linked e =
      let on : (has_order (z.order p) k && (list_of p == mt)) ≡ true =
        sym (linked.listed.on_list k mt p) ∙ ap (has p) e ∙ ground arith in
      (ground (arith, on), ground (arith, on))

  take_block-IsTaken :
      (z : Zone) (p o n mt : ℕ) (rest : List ℕ)
      → IsValid valid zone_id z
      → mt < migrate_types
      → z.free_list (o + n) mt ≡ p ∷ rest
      → IsTaken z (o + n) o mt p (take_block z p o n mt)
  unfolding take_block AreEmpty
  take_block-IsTaken z p o n mt rest ok lt e =
      let at = (listed-order z ok.list_of (o + n) mt p rest ok.linked e).0 in
      let block = ok.tiled.block p (o + n) at in
      let split =
        expand-IsSplit valid zone_id n ok.list_of (drop_block z p (o + n)) p o mt
          (drop-IsLinked z ok.list_of p (o + n) ok.linked at)
          (drop-IsTiled valid zone_id z p (o + n) ok.tiled)
          (drop-IsHeld valid zone_id z p (o + n) ok.tiled at) lt in
      record {
        k = o + n;
        at_least = omega arith;
        rest = rest;
        first = e;
        smallest = λ k a b. absurd (omega (arith, a, b));
        given = split-IsGiven valid zone_id z p o (o + n) _ ok at split;
      }

  -- An empty list is passed over.
  pass-AreEmpty :
      (z : Zone) (mt low high : ℕ)
      → z.free_list low mt ≡ []
      → AreEmpty z mt (suc low) high
      → AreEmpty z mt low high
  unfolding AreEmpty
  pass-AreEmpty z mt low high e rest k a b = elim (Bool-cases (k == low)) [
    | inl x ↦ ap (λ t. z.free_list t mt) (ground (arith, x)) ∙ e
    | inr x ↦ rest k (ground (arith, x, a)) b
  ]

  pass-Returns :
      (z : Zone) (from o mt : ℕ) (r : Option ℕ × Zone)
      → z.free_list from mt ≡ []
      → Returns z (suc from) o mt r
      → Returns z from o mt r
  unfolding Returns
  pass-Returns z from o mt (none, r) e (a, b) = (a, pass-AreEmpty z mt from max_order e b)
  pass-Returns z from o mt (some p, r) e t = record {
    k = t.k;
    at_least = omega (arith, t.at_least);
    rest = t.rest;
    first = t.first;
    smallest = pass-AreEmpty z mt from t.k e t.smallest;
    given = t.given;
  }

  smallest_from-Returns :
      (rounds n : ℕ) (z : Zone) (o mt : ℕ)
      → o + n + rounds ≡ max_order
      → IsValid valid zone_id z
      → mt < migrate_types
      → Returns z (o + n) o mt (smallest_from rounds n z o mt)
  unfolding smallest_from Returns AreEmpty
  smallest_from-Returns zero n z o mt e ok lt = (refl, λ k a b. absurd (omega (arith, e, a, b)))
  smallest_from-Returns (suc rounds) n z o mt e ok lt =
      let one : o + (n + 1) ≡ suc (o + n) = omega arith in
      let rest =
        subst (λ t. Returns z t o mt (smallest_from rounds (n + 1) z o mt)) one
          (smallest_from-Returns rounds (n + 1) z o mt (omega (arith, e)) ok lt) in
      elim (List-cases (z.free_list (o + n) mt)) [
        | inl x ↦
            subst
              (λ l. Returns z (o + n) o mt (elim l as (λ _. Option ℕ × Zone) [
                | [] ↦ smallest_from rounds (n + 1) z o mt
                | page ∷ _ ↦ (some page, take_block z page o n mt)
              ]))
              (sym x) (pass-Returns z (o + n) o mt _ x rest)
        | inr (p, ps, x) ↦
            subst
              (λ l. Returns z (o + n) o mt (elim l as (λ _. Option ℕ × Zone) [
                | [] ↦ smallest_from rounds (n + 1) z o mt
                | page ∷ _ ↦ (some page, take_block z page o n mt)
              ]))
              (sym x) (take_block-IsTaken z p o n mt ps ok lt x)
      ]

  -- __rmqueue_smallest for an order below MAX_ORDER and one of the migrate types, on a valid zone,
  -- takes the first block of the first list of the type that is not empty, from the order that is
  -- asked for upwards. The zone stays valid, the block is aligned and apart from the free blocks,
  -- and the pages that were free are its pages and those that are free still. If all these lists are
  -- empty it returns NULL and the zone is unchanged.
  pub rmqueue_smallest-Returns :
      (z : Zone) (o mt : ℕ)
      → IsValid valid zone_id z
      → o < max_order
      → mt < migrate_types
      → Returns z o o mt (rmqueue_smallest z o mt)
  unfolding rmqueue_smallest
  rmqueue_smallest-Returns z o mt ok lo lt =
      subst (λ t. Returns z t o mt (rmqueue_smallest z o mt)) (let e : o + 0 ≡ o = omega arith in e)
        (smallest_from-Returns (max_order - o) 0 z o mt (omega (arith, lo)) ok lt)
