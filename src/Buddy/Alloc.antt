-- ===== src/Buddy/Alloc.antt =====
-- Taking a block from the lists, __rmqueue_smallest and expand.
pub mod Smallest
use mathlib.Core.Path.{subst}
use my_posts.Prelude.{
  ℕ, zero, suc, ◌+◌, ◌-◌, ◌^◌, ◌≤◌, ◌<◌, ◌≡◌, refl, sym, ap, ◌∙◌, ◌↔◌, ◌⊎◌, inl, inr, arith, Bool,
  true, false, ◌&&◌, ◌==◌, not, some, none, List, [], ◌∷◌, has, set, Option, two_pow-pos,
  if◌then◌else◌,
}
use my_posts.Buddy.{
  Zone, has_order, max_order, migrate_types, index, page_is_buddy, expand, take_block,
  smallest_from, rmqueue_smallest,
}
use my_posts.Buddy.Pair.{buddy, combined, IsPair, buddy-IsPair, lower_half}
use my_posts.Buddy.Valid.{
  IsValid, IsLinked, IsTiled, IsHeld, IsBlock, IsFree, IsIn, IsApart, drop_block, add_block,
}
use my_posts.Buddy.Valid.Drop.{drop-IsLinked, drop-IsTiled, drop-IsFree, drop-IsHeld}
use my_posts.Buddy.Valid.Add.{cons-IsMore, add-IsLinked, add-IsFree}
use my_posts.Buddy.Valid.Add.Tiled.{add-IsTiled, IsHeld-add_block}
use my_posts.Buddy.Valid.Count.{free_count, drop-free_count, add-free_count}
use my_posts.Buddy.Valid.Halves.{held-order, halves-IsIn, lower-IsHeld, upper-IsHeld, lower-IsApart}

module _ (valid : ℕ → Bool) (zone_id : ℕ → ℕ) where
  -- A block of order `k` in hand is split, and its first part, of order `o`, stays in hand.
  pub record IsSplit (z : Zone) (p o k : ℕ) (r : Zone) : Type 0 where
    pub valid_zone : IsValid valid zone_id r
    pub held : IsHeld valid zone_id r p o
    pub count : free_count r + 2 ^ o ≡ free_count z + 2 ^ k
    pub pages : (n : ℕ) → (IsFree r n ⊎ IsIn p o n) ↔ (IsFree z n ⊎ IsIn p k n)

  -- The block of order `o` at `p` is taken from the zone.
  pub record IsGiven (z : Zone) (p o : ℕ) (r : Zone) : Type 0 where
    pub valid_zone : IsValid valid zone_id r
    pub held : IsHeld valid zone_id r p o
    pub count : free_count r + 2 ^ o ≡ free_count z
    pub pages : (n : ℕ) → (IsFree r n ⊎ IsIn p o n) ↔ IsFree z n

  not_buddy :
      (z : Zone) (a b k : ℕ) → z.order b ≡ none → page_is_buddy valid zone_id z a b k ≡ false
  unfolding page_is_buddy
  not_buddy z a b k e = ground (arith, e)

  -- The buddy of the second half is the first half, which is not free.
  upper-alone :
      (z : Zone) (p h : ℕ)
      → IsHeld valid zone_id z p (suc h)
      → page_is_buddy valid zone_id z (p + 2 ^ h) (buddy (p + 2 ^ h) h) h ≡ false
  upper-alone z p h held =
      let lt : h < 10 = omega (arith, held.block.order) in
      let (a, at, same) = lower_half p h lt held.block.aligned in
      let back : buddy (p + 2 ^ h) h ≡ p =
        ap (λ t. buddy t h) (sym at) ∙ (buddy-IsPair p h lt a).back in
      not_buddy z (p + 2 ^ h) (buddy (p + 2 ^ h) h) h
        (ap z.order back ∙ held-order valid zone_id z p (suc h) held)

  -- One round of expand.
  halve-IsSplit :
      (z : Zone) (p o h mt : ℕ) (r : Zone)
      → IsHeld valid zone_id z p (suc h)
      → IsSplit (add_block z (p + 2 ^ h) h mt ((p + 2 ^ h) ∷ z.free_list h mt)) p o h r
      → IsSplit z p o (suc h) r
  halve-IsSplit z p o h mt r held split =
      let (a, at, same) = lower_half p h (omega (arith, held.block.order)) held.block.aligned in
      let pair = buddy-IsPair p h (omega (arith, held.block.order)) a in
      let whole : (n : ℕ) → IsIn p (suc h) n ↔ (IsIn p h n ⊎ IsIn (p + 2 ^ h) h n) = λ n.
        subst (λ t. IsIn t (suc h) n ↔ (IsIn p h n ⊎ IsIn (p + 2 ^ h) h n)) same
          (subst (λ t. IsIn (combined p h) (suc h) n ↔ (IsIn p h n ⊎ IsIn t h n)) at
            (halves-IsIn p h n pair)) in
      record {
        valid_zone = split.valid_zone;
        held = split.held;
        count = omega (
          arith,
          split.count,
          pair.double,
          add-free_count z (p + 2 ^ h) h mt ((p + 2 ^ h) ∷ z.free_list h mt)
              (omega (arith, held.block.order)),
        );
        pages = λ n.
            let out =
              held-order valid zone_id z (p + 2 ^ h) h (upper-IsHeld valid zone_id z p h held) in
            let (b, c) = split.pages n in
            let (d, e) = add-IsFree z (p + 2 ^ h) h mt n ((p + 2 ^ h) ∷ z.free_list h mt) out in
            let (f, g) = whole n in
            (
              λ i. elim (b i) [
                | inl j ↦ elim (d j) [ inl k ↦ inl k | inr k ↦ inr (g (inr k)) ]
                | inr j ↦ inr (g (inl j))
              ],
              λ i. c (elim i [
                | inl j ↦ inl (e (inl j))
                | inr j ↦ elim (f j) [ inl k ↦ inr k | inr k ↦ inl (e (inr k)) ]
              ]),
            );
      }

  pub expand-IsSplit :
      (n : ℕ) (list_of : ℕ → ℕ) (z : Zone) (p o mt : ℕ)
      → IsLinked z list_of
      → IsTiled valid zone_id z
      → IsHeld valid zone_id z p (o + n)
      → mt < migrate_types
      → IsSplit z p o (o + n) (expand z p o n mt)
  unfolding expand
  expand-IsSplit zero list_of z p o mt linked tiled held lt =
      subst (λ t. IsSplit z p o t z) (let e : o ≡ o + 0 = omega arith in e)
        (record {
          valid_zone = record { list_of = list_of; linked = linked; tiled = tiled };
          held = subst (IsHeld valid zone_id z p) (omega arith) held;
          count = refl;
          pages = λ n. (λ i. i, λ i. i);
        })
  expand-IsSplit (suc n) list_of z p o mt linked tiled held lt =
      let one : o + suc n ≡ suc (o + n) = omega arith in
      let held' = subst (IsHeld valid zone_id z p) one held in
      let half_held = upper-IsHeld valid zone_id z p (o + n) held' in
      let old = z.free_list (o + n) mt in
      let half = p + 2 ^ (o + n) in
      let out = held-order valid zone_id z half (o + n) half_held in
      let absent : has half old ≡ false =
        linked.listed.on_list (o + n) mt half
        ∙ ap (λ x. has_order x (o + n) && (list_of half == mt)) out in
      let more = cons-IsMore half old (linked.listed.once (o + n) mt) absent in
      subst (λ t. IsSplit z p o t (expand z p o (suc n) mt)) (sym one)
        (halve-IsSplit z p o (o + n) mt _ held' (
          expand-IsSplit n (set list_of half mt) (add_block z half (o + n) mt (half ∷ old)) p o mt
            (add-IsLinked z list_of half (o + n) mt (half ∷ old) linked out lt more)
            (add-IsTiled valid zone_id z half (o + n) mt (half ∷ old) tiled half_held
              (λ _. upper-alone z p (o + n) held'))
            (IsHeld-add_block valid zone_id z half (o + n) mt p (o + n) (half ∷ old)
              (lower-IsHeld valid zone_id z p (o + n) held') (lower-IsApart p (o + n)))
            lt))

  -- A block of order `k` is taken from its list and split.
  pub split-IsGiven :
      (z : Zone) (p o k : ℕ) (r : Zone)
      → IsValid valid zone_id z
      → z.order p ≡ some k
      → IsSplit (drop_block z p k) p o k r
      → IsGiven z p o r
  split-IsGiven z p o k r ok at split = record {
    valid_zone = split.valid_zone;
    held = split.held;
    count = omega (
      arith,
      split.count,
      drop-free_count z ok.list_of p k ok.linked (ok.tiled.block p k at).order at,
    );
    pages = λ i.
        let (a, b) = split.pages i in
        let (c, d) = drop-IsFree z p k i at in (λ j. d (a j), λ j. b (c j));
  }
