-- ===== src/Buddy/Fallback/Search.antt =====
-- The search for a block on the lists of other migrate types, __rmqueue_fallback, and the whole search, __rmqueue.
use mathlib.Core.Path.{subst}
use my_posts.Prelude.{
  ℕ, zero, suc, ◌+◌, ◌-◌, ◌≤◌, ◌<◌, ◌≡◌, refl, sym, ap, ◌∙◌, ◌⊎◌, inl, inr, arith, Bool, true,
  false, ◌&&◌, ◌||◌, Bool-cases, ltb, ltb→lt, Option, none, some, List, [], ◌∷◌, List-cases, ◌==◌,
  has, if◌then◌else◌, if_split,
}
use my_posts.Buddy.{Zone, has_order, max_order, migrate_types, rmqueue_smallest}
use my_posts.Buddy.Fallback.{
  reserve, fallbacks, take_fallback, in_types, fallback_from, rmqueue_fallback, rmqueue,
}
use my_posts.Buddy.Fallback.Take.{take_fallback-IsGiven}
use my_posts.Buddy.Valid.{IsValid}
use my_posts.Buddy.Alloc.{IsGiven}
use my_posts.Buddy.Alloc.Smallest.{AreEmpty, Returns, rmqueue_smallest-Returns, listed-order}

-- The types before MIGRATE_RESERVE in a row of `fallbacks`.
visited : (t : ℕ) → List ℕ → Bool
visited t [] = false
visited t (x ∷ xs) = let rest = visited t xs in if x == reserve then false else (x == t) || rest

covered :
    (mt t : ℕ)
    → mt < reserve
    → t < migrate_types
    → (t ≡ mt) ⊎ ((t ≡ reserve) ⊎ (visited t (fallbacks mt) ≡ true))
unfolding visited fallbacks
covered zero t lt lu = ground arith
covered (suc zero) t lt lu = ground arith
covered (suc (suc zero)) t lt lu = ground arith
covered (suc (suc (suc mt))) t lt lu = absurd (omega (arith, lt))

-- Nothing that is large enough is free.
unfoldable pub AllSmall : Zone → (o : ℕ) → Type 0
AllSmall z o = (q k : ℕ) → z.order q ≡ some k → k < o

module _ (valid : ℕ → Bool) (zone_id : ℕ → ℕ) where
  -- A block of order `o` is taken, or the zone is as before and the lists have none.
  unfoldable pub Answers : Zone → ℕ → Type 0 → Option ℕ × Zone → Type 0
  Answers z o lack (none, r) = (r ≡ z) × lack
  Answers z o lack (some p, r) = IsGiven valid zone_id z p o r

  FoundIn : Zone → (o n : ℕ) → List ℕ → Option (ℕ × Zone) → Type 0
  FoundIn z o n types none = (t : ℕ) → visited t types ≡ true → z.free_list (o + n) t ≡ []
  FoundIn z o n types (some (p, r)) = IsGiven valid zone_id z p o r

  pass-FoundIn :
      (z : Zone) (o n x : ℕ) (xs : List ℕ) (r : Option (ℕ × Zone))
      → z.free_list (o + n) x ≡ []
      → FoundIn z o n xs r
      → FoundIn z o n (x ∷ xs) r
  unfolding FoundIn visited
  pass-FoundIn z o n x xs none e f = λ t v. elim (Bool-cases (x == t)) [
    | inl w ↦ ap (z.free_list (o + n)) (let q : t ≡ x = ground (arith, w) in q) ∙ e
    | inr w ↦ f t (ground (arith, v, w))
  ]
  pass-FoundIn z o n x xs (some (p, r)) e f = f

  module _ (spans : ℕ → Bool) (disabled : Bool) (pageblock_order : ℕ) where
    in_types-FoundIn :
        (types : List ℕ) (z : Zone) (o n start : ℕ)
        → IsValid valid zone_id z
        → start < migrate_types
        → FoundIn z o n types (in_types valid spans disabled pageblock_order types z o n start)
    unfolding in_types FoundIn visited
    in_types-FoundIn [] z o n start ok lt = λ t v. ground (arith, v)
    in_types-FoundIn (x ∷ xs) z o n start ok lt =
        let rest = in_types valid spans disabled pageblock_order xs z o n start in
        if_split (FoundIn z o n (x ∷ xs)) (x == reserve) _ _ (λ w t v. ground (arith, v, w))
          (λ w. elim (List-cases (z.free_list (o + n) x)) [
            | inl e ↦
                subst
                  (λ l. FoundIn z o n (x ∷ xs) (elim l as (λ _. Option (ℕ × Zone)) [
                    | [] ↦ rest
                    | page ∷ _ ↦
                        some (
                          page,
                          take_fallback valid spans disabled pageblock_order z page o n start,
                        )
                  ]))
                  (sym e) (pass-FoundIn z o n x xs rest e (in_types-FoundIn xs z o n start ok lt))
            | inr (p, ps, e) ↦
                subst
                  (λ l. FoundIn z o n (x ∷ xs) (elim l as (λ _. Option (ℕ × Zone)) [
                    | [] ↦ rest
                    | page ∷ _ ↦
                        some (
                          page,
                          take_fallback valid spans disabled pageblock_order z page o n start,
                        )
                  ]))
                  (sym e)
                  (take_fallback-IsGiven valid zone_id spans disabled pageblock_order z p o n start
                    ok (listed-order valid zone_id z ok.list_of (o + n) x p ps ok.linked e).0 lt)
          ])

    -- No list of the other types has a block of one of `rounds` orders.
    NoneIn : Zone → (o rounds start : ℕ) → Type 0
    NoneIn z o rounds start =
        (k t : ℕ)
        → o ≤ k
        → k < o + rounds
        → visited t (fallbacks start) ≡ true
        → z.free_list k t ≡ []

    more-Answers :
        (z : Zone) (o n start : ℕ) (r : Option ℕ × Zone)
        → FoundIn z o n (fallbacks start) none
        → Answers z o (NoneIn z o n start) r
        → Answers z o (NoneIn z o (suc n) start) r
    unfolding Answers FoundIn NoneIn
    more-Answers z o n start (none, r) f (e, l) = (
      e,
      λ k t a b v. elim (Bool-cases (k == o + n)) [
        | inl w ↦ ap (λ j. z.free_list j t) (let q : k ≡ o + n = ground (arith, w) in q) ∙ f t v
        | inr w ↦ l k t a (ground (arith, w, b)) v
      ],
    )
    more-Answers z o n start (some p, r) f g = g

    pick-Answers :
        (z : Zone) (o n start : ℕ) (r : Option (ℕ × Zone)) (rest : Option ℕ × Zone)
        → FoundIn z o n (fallbacks start) r
        → Answers z o (NoneIn z o n start) rest
        → Answers z o (NoneIn z o (suc n) start) (elim r as (λ _. Option ℕ × Zone) [
          | none ↦ rest
          | some (page, taken) ↦ (some page, taken)
        ])
    unfolding Answers FoundIn
    pick-Answers z o n start none rest f g = more-Answers z o n start rest f g
    pick-Answers z o n start (some (p, r)) rest f g = f

    fallback_from-Answers :
        (rounds : ℕ) (z : Zone) (o start : ℕ)
        → IsValid valid zone_id z
        → start < migrate_types
        → Answers z o
            (NoneIn z o rounds start)
            (fallback_from valid spans disabled pageblock_order rounds z o start)
    unfolding fallback_from Answers NoneIn
    fallback_from-Answers zero z o start ok lt = (refl, λ k t a b v. absurd (omega (arith, a, b)))
    fallback_from-Answers (suc n) z o start ok lt =
        pick-Answers z o n start
          (in_types valid spans disabled pageblock_order (fallbacks start) z o n start)
          (fallback_from valid spans disabled pageblock_order n z o start)
          (in_types-FoundIn (fallbacks start) z o n start ok lt)
          (fallback_from-Answers n z o start ok lt)

    all-AllSmall :
        (z : Zone) (o mt : ℕ)
        → IsValid valid zone_id z
        → mt < reserve
        → AreEmpty z mt o max_order
        → NoneIn z o (max_order - o) mt
        → AreEmpty z reserve o max_order
        → AllSmall z o
    unfolding AllSmall AreEmpty NoneIn
    all-AllSmall z o mt ok lt a b c q k e = elim (Bool-cases (ltb k o)) [
      | inl x ↦ ltb→lt k o x
      | inr x ↦
          let le : o ≤ k = ground (arith, x) in
          let block = ok.tiled.block q k e in
          let t = ok.list_of q in
          let on : has q (z.free_list k t) ≡ true =
            ok.linked.listed.on_list k t q ∙ ap (λ w. has_order w k && (t == t)) e ∙ ground arith in
          let empty : z.free_list k t ≡ [] = elim (covered mt t lt (ok.linked.listed.typed q k e)) [
            | inl i ↦ ap (z.free_list k) i ∙ a k le block.order
            | inr (inl i) ↦ ap (z.free_list k) i ∙ c k le block.order
            | inr (inr i) ↦ b k t le (omega (arith, le, block.order)) i
          ] in
          absurd (ground (arith, sym on ∙ ap (has q) empty))
    ]

    -- The three searches one after the other, each in the zone that the one before has left.
    abbrev in_turn : (a : Option ℕ × Zone) (b c : Zone → Option ℕ × Zone) → Bool → Option ℕ × Zone
    in_turn a b c last = elim a.0 [
      | some page ↦ (some page, a.1)
      | none ↦
          if last
          then (none, a.1)
          else elim (b a.1).0 [ some page ↦ (some page, (b a.1).1) | none ↦ c (b a.1).1 ]
    ]

    third-Answers :
        (z : Zone) (o : ℕ) (t : Option ℕ × Zone)
        → (AreEmpty z reserve o max_order → AllSmall z o)
        → Returns valid zone_id z o o reserve t
        → Answers z o (AllSmall z o) t
    unfolding Answers Returns
    third-Answers z o (none, r) f (e, x) = (e, f x)
    third-Answers z o (some p, r) f x = x.given

    second-Answers :
        (z : Zone) (o mt : ℕ) (s : Option ℕ × Zone) (c : Zone → Option ℕ × Zone)
        → (NoneIn z o (max_order - o) mt → AreEmpty z reserve o max_order → AllSmall z o)
        → Answers z o (NoneIn z o (max_order - o) mt) s
        → Returns valid zone_id z o o reserve (c z)
        → Answers z o
            (AllSmall z o)
            (elim s.0 as (λ _. Option ℕ × Zone) [ none ↦ c s.1 | some page ↦ (some page, s.1) ])
    unfolding Answers
    second-Answers z o mt (some p, r) c f y w = y
    second-Answers z o mt (none, r) c f (e, l) w =
        subst (λ t. Answers z o (AllSmall z o) (c t)) (sym e) (third-Answers z o (c z) (f l) w)

    in_turn-Answers :
        (z : Zone) (o mt : ℕ) (a : Option ℕ × Zone) (b c : Zone → Option ℕ × Zone)
        → IsValid valid zone_id z
        → mt < reserve
        → Returns valid zone_id z o o mt a
        → Answers z o (NoneIn z o (max_order - o) mt) (b z)
        → Returns valid zone_id z o o reserve (c z)
        → Answers z o (AllSmall z o) (in_turn a b c (mt == reserve))
    unfolding Answers Returns
    in_turn-Answers z o mt (some p, r) b c ok lt x y w = x.given
    in_turn-Answers z o mt (none, r) b c ok lt (e, x) y w =
        let not_last : (mt == reserve) ≡ false = ground (arith, lt) in
        subst (λ t. Answers z o (AllSmall z o) (in_turn (none, t) b c (mt == reserve))) (sym e)
          (subst (λ t. Answers z o (AllSmall z o) (in_turn (none, z) b c t)) (sym not_last)
            (second-Answers z o mt (b z) c (all-AllSmall z o mt ok lt x) y w))

    -- __rmqueue for an order below MAX_ORDER and a type other than MIGRATE_RESERVE, on a valid zone,
    -- returns a block whenever a free block of the order or a larger one is left, of whatever type.
    -- The zone stays valid, the block is aligned and apart from the free blocks, and the pages that
    -- were free are those of the block and those that are free still. Without such a block it returns
    -- NULL and the zone is unchanged.
    pub rmqueue-Answers :
        (z : Zone) (o mt : ℕ)
        → IsValid valid zone_id z
        → o < max_order
        → mt < reserve
        → Answers z o (AllSmall z o) (rmqueue valid spans disabled pageblock_order z o mt)
    unfolding rmqueue rmqueue_fallback
    rmqueue-Answers z o mt ok lo lt =
        in_turn-Answers z o mt (rmqueue_smallest z o mt)
          (λ y. rmqueue_fallback valid spans disabled pageblock_order y o mt)
          (λ y. rmqueue_smallest y o reserve) ok lt
          (rmqueue_smallest-Returns valid zone_id z o mt ok lo (omega (arith, lt)))
          (fallback_from-Answers (max_order - o) z o mt ok (omega (arith, lt)))
          (rmqueue_smallest-Returns valid zone_id z o reserve ok lo (omega arith))
