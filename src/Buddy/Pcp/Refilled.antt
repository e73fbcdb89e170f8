-- ===== src/Buddy/Pcp/Refilled.antt =====
-- An empty per-cpu list that rmqueue_bulk has refilled.
use mathlib.Core.Path.{subst}
use mathlib.Core.List.{append-nil}
use my_posts.Prelude.{
  ℕ, suc, ◌+◌, ◌<◌, ◌≡◌, ◌≢◌, refl, sym, ap, ◌∙◌, ◌⊎◌, inl, inr, arith, Bool, true, false, ◌||◌,
  Bool-cases, List, [], ◌∷◌, ◌++◌, ◌==◌, length, has, has-append, length-append, IsOnce,
  snoc-IsOnce, set, set-same, set-other, if◌then◌else◌, if_both,
}
use my_posts.Buddy.{Zone}
use my_posts.Buddy.Bulk.Taken.{laid, AreApart, InSome}
use my_posts.Buddy.Bulk.Left.{KeepTypes}
use my_posts.Buddy.Bulk.Refill.{IsRefilled}
use my_posts.Buddy.Pcp.Store.{IsStore, OnList, all_pages, set-all_pages}
use my_posts.Buddy.Pcp.Return.{SamePages, one_page, own_page}
use my_posts.Buddy.Valid.{IsFree}
use my_posts.Buddy.Valid.Pages.{pages-IsHeld, held-pages, apart-pages}

has-laid : (c : Bool) (q : ℕ) (ps : List ℕ) → has q (laid c ps) ≡ has q ps
unfolding laid
has-laid c q [] = refl
has-laid true q (p ∷ ps) = has-append q (laid true ps) (p ∷ []) ∙ ground (arith, has-laid true q ps)
has-laid false q (p ∷ ps) = ap (λ b. (p == q) || b) (has-laid false q ps)

length-laid : (c : Bool) (ps : List ℕ) → length (laid c ps) ≡ length ps
unfolding laid
length-laid c [] = refl
length-laid true (p ∷ ps) =
    omega (arith, length-append (laid true ps) (p ∷ []), length-laid true ps)
length-laid false (p ∷ ps) = ap suc (length-laid false ps)

-- Pages that are apart are different.
pages-IsOnce : (ps : List ℕ) → AreApart 0 ps → IsOnce ps
unfolding AreApart
pages-IsOnce [] apart = _
pages-IsOnce (p ∷ ps) apart = (
  elim (Bool-cases (has p ps)) [
    | inl h ↦ absurd (apart-pages p 0 p 0 p (apart.0 p h) (own_page p) (own_page p))
    | inr h ↦ h
  ],
  pages-IsOnce ps apart.1,
)

laid-IsOnce : (c : Bool) (ps : List ℕ) → IsOnce ps → IsOnce (laid c ps)
unfolding laid
laid-IsOnce c [] once = _
laid-IsOnce true (p ∷ ps) once =
    snoc-IsOnce p (laid true ps) (has-laid true p ps ∙ once.0) (laid-IsOnce true ps once.1)
laid-IsOnce false (p ∷ ps) once = (has-laid false p ps ∙ once.0, laid-IsOnce false ps once.1)

-- Beside an empty list there are only the new pages.
placed_alone :
    (c : Bool) (l m : List ℕ) → l ≡ [] → (if c then l else []) ++ (m ++ (if c then [] else l)) ≡ m
placed_alone true l m e = ap (λ t. t ++ (m ++ [])) e ∙ append-nil m
placed_alone false l m e = ap (λ t. m ++ t) e ∙ append-nil m

module _ (valid : ℕ → Bool) (zone_id : ℕ → ℕ) (spans : ℕ → Bool) (disabled : Bool)
    (pageblock_order : ℕ) where
  module _ (z : Zone) (lists : ℕ → List ℕ) (mt n : ℕ) (cold : Bool) (r : Zone × List ℕ × ℕ)
      (store : IsStore valid zone_id z lists) (empty : lists mt ≡ [])
      (filled : IsRefilled valid zone_id spans disabled pageblock_order z 0 n
        (lists mt)
        mt
        cold
        r) where
    abbrev taken : List ℕ
    taken = filled.batch.taken

    only_taken : r.1 ≡ laid cold taken
    only_taken = filled.batch.placed ∙ placed_alone cold (lists mt) (laid cold taken) empty

    has_taken : (q : ℕ) → has q (set lists mt r.1 mt) ≡ has q taken
    has_taken q = ap (has q) (set-same lists mt r.1 ∙ only_taken) ∙ has-laid cold q taken

    -- A page on a list has been taken, or was there before.
    came :
        (t q : ℕ)
        → has q (set lists mt r.1 t) ≡ true
        → ((t ≡ mt) × (has q taken ≡ true)) ⊎ ((t ≢ mt) × (has q (lists t) ≡ true))
    came t q h = elim (Bool-cases (t == mt)) [
      | inl x ↦
          let w : t ≡ mt = ground (arith, x) in
          inl (w, sym (ap (λ v. has q (set lists mt r.1 v)) w ∙ has_taken q) ∙ h)
      | inr x ↦
          let ne : t ≢ mt = λ w. ground (arith, w, x) in
          inr (ne, sym (ap (has q) (set-other lists mt t r.1 ne)) ∙ h)
    ]

    taken-IsFree : (q : ℕ) → has q taken ≡ true → IsFree z q
    unfolding InSome
    taken-IsFree q h = (filled.batch.pages q).0 (inr (q, h, own_page q))

    new_alone :
        (t u q : ℕ) → has q (set lists mt r.1 t) ≡ true → has q (set lists mt r.1 u) ≡ true → t ≡ u
    new_alone t u q h i = elim (came t q h) [
      | inl (a, b) ↦ elim (came u q i) [
        | inl (c, d) ↦ a ∙ sym c
        | inr (c, d) ↦
            absurd
              (held-pages valid zone_id z q 0 (store.held u q d) q (own_page q) (taken-IsFree q b))
      ]
      | inr (a, b) ↦ elim (came u q i) [
        | inl (c, d) ↦
            absurd
              (held-pages valid zone_id z q 0 (store.held t q b) q (own_page q) (taken-IsFree q d))
        | inr (c, d) ↦ store.alone t u q b d
      ]
    ]

    pub refilled-IsStore : IsStore valid zone_id r.0 (set lists mt r.1)
    unfolding KeepTypes
    refilled-IsStore = record {
      valid_zone = filled.batch.valid_zone;
      counted = filled.counted;
      typed = λ t q h. elim (came t q h) [
        | inl (a, b) ↦ filled.batch.typed q b
        | inr (a, b) ↦ filled.typed q (store.typed t q b)
      ];
      held = λ t q h. elim (came t q h) [
        | inl (a, b) ↦ filled.batch.held q b
        | inr (a, b) ↦
            let old = store.held t q b in
            pages-IsHeld valid zone_id r.0 q 0 old.block
              (λ i j f. held-pages valid zone_id z q 0 old i j ((filled.batch.pages i).0 (inl f)))
      ];
      once = λ t.
          if_both IsOnce (t == mt) r.1 (lists t)
            (subst IsOnce (sym only_taken)
              (laid-IsOnce cold taken (pages-IsOnce taken filled.batch.apart)))
            (store.once t);
      alone = new_alone;
    }

    pub refilled-SamePages : SamePages valid zone_id z lists r.0 (set lists mt r.1)
    unfolding SamePages OnList InSome
    refilled-SamePages i = (
      λ f. elim f [
        | inl g ↦ inl ((filled.batch.pages i).0 (inl g))
        | inr (t, h) ↦ elim (came t i h) [
          | inl (a, b) ↦ inl (taken-IsFree i b)
          | inr (a, b) ↦ inr (t, b)
        ]
      ],
      λ f. elim f [
        | inl g ↦ elim ((filled.batch.pages i).1 g) [
          | inl k ↦ inl k
          | inr (q, h, j) ↦ inr (mt, has_taken i ∙ ap (λ v. has v taken) (one_page q i j) ∙ h)
        ]
        | inr (t, h) ↦ inr (
          t,
          ap (has i) (
                set-other lists mt t r.1
                  (λ w. ground (arith, sym h ∙ ap (λ v. has i (lists v)) w ∙ ap (has i) empty)))
              ∙ h,
        )
      ],
    )

    pub refilled-all_pages : mt < 3 → all_pages (set lists mt r.1) ≡ all_pages lists + r.2
    refilled-all_pages lt = omega (
      arith,
      set-all_pages mt lists r.1 lt,
      ap length empty,
      ap length only_taken,
      length-laid cold taken,
      filled.batch.number,
    )

    pub refilled-length : length (set lists mt r.1 mt) ≡ r.2
    refilled-length =
        ap length (set-same lists mt r.1 ∙ only_taken)
        ∙ length-laid cold taken
        ∙ filled.batch.number
