-- ===== src/Buddy/Pcp/Return.antt =====
-- A page goes from a per-cpu list to the zone.
use mathlib.Core.Path.{subst}
use my_posts.Prelude.{
  ℕ, suc, ◌+◌, ◌<◌, ◌≡◌, ◌≢◌, refl, sym, ap, ◌∙◌, ◌↔◌, ◌⊎◌, inl, inr, arith, Bool, true, false,
  ◌||◌, Bool-cases, List, ◌==◌, has, IsOnce, set, if_both, set-same, set-other,
}
use my_posts.Buddy.{Zone, free_one}
use my_posts.Buddy.Pcp.{return_page}
use my_posts.Buddy.Pcp.Store.{IsStore, IsRest, OnList, all_pages, set-all_pages}
use my_posts.Buddy.Valid.{IsFree, IsIn}
use my_posts.Buddy.Valid.Pages.{pages-IsHeld, held-pages}
use my_posts.Buddy.Valid.Same.{same-IsLinked, same-IsTiled, same-IsFree}
use my_posts.Buddy.Free.{IsPut, free_one-IsPut}
use my_posts.Buddy.Free.Page.{free_one-IsLeft}

-- A block of order 0 is a page.
pub one_page : (p n : ℕ) → IsIn p 0 n → n ≡ p
unfolding IsIn
one_page p n i = omega (arith, i)

pub own_page : (p : ℕ) → IsIn p 0 p
unfolding IsIn
own_page p = (omega arith, omega arith)

module _ (valid : ℕ → Bool) (zone_id : ℕ → ℕ) where
  -- The pages in the zone and on the lists are the same before and after.
  unfoldable pub SamePages :
      (z : Zone) (lists : ℕ → List ℕ) (y : Zone) (lists' : ℕ → List ℕ) → Type 0
  SamePages z lists y lists' =
      (n : ℕ) → (IsFree y n ⊎ OnList lists' n) ↔ (IsFree z n ⊎ OnList lists n)

  module _ (z : Zone) (lists : ℕ → List ℕ) (t page : ℕ) (others : List ℕ)
      (store : IsStore valid zone_id z lists) (part : IsRest page (lists t) others) where
    pub there : has page (lists t) ≡ true
    there = part.has_all page ∙ ground arith

    pub kept_page :
        (u q : ℕ) → has q (set lists t others u) ≡ true → (has q (lists u) ≡ true) × (q ≢ page)
    kept_page u q h = elim (Bool-cases (u == t)) [
      | inl x ↦
          let w : u ≡ t = ground (arith, x) in
          let i : has q others ≡ true =
            sym (ap (has q) (ap (set lists t others) w ∙ set-same lists t others)) ∙ h in
          (
            ap (λ v. has q (lists v)) w ∙ part.has_all q ∙ ap (λ b. b || (page == q)) i,
            λ e. ground (arith, sym (ap (λ v. has v others) e) ∙ i, part.out),
          )
      | inr x ↦
          let ne : u ≢ t = λ w. ground (arith, w, x) in
          let i : has q (lists u) ≡ true = sym (ap (has q) (set-other lists t u others ne)) ∙ h in
          (i, λ e. ne (store.alone u t page (ap (λ v. has v (lists u)) (sym e) ∙ i) there))
    ]

    pub still :
        (u q : ℕ)
        → has q (lists u) ≡ true
        → (page == q) ≡ false
        → has q (set lists t others u) ≡ true
    still u q h x = elim (Bool-cases (u == t)) [
      | inl y ↦
          let w : u ≡ t = ground (arith, y) in
          let i = sym (part.has_all q) ∙ ap (λ v. has q (lists v)) (sym w) ∙ h in
          ap (has q) (ap (set lists t others) w ∙ set-same lists t others) ∙ ground (arith, i, x)
      | inr y ↦ ap (has q) (set-other lists t u others (λ w. ground (arith, w, y))) ∙ h
    ]

    put :
        IsPut valid zone_id z page 0
          (free_one valid zone_id false z page 0 (z.freepage_migratetype page))
    put =
        free_one-IsPut valid zone_id z page 0 (z.freepage_migratetype page) store.valid_zone
          (store.held t page there) (store.typed t page there)

    IsFree-return_page :
        (n : ℕ) → IsFree (return_page valid zone_id z page) n ↔ (IsFree z n ⊎ IsIn page 0 n)
    unfolding return_page
    IsFree-return_page n =
        let freed = free_one valid zone_id false z page 0 (z.freepage_migratetype page) in
        let (a, b) = put.pages n in
        (
          λ f. a (same-IsFree (return_page valid zone_id z page) freed n refl f),
          λ f. same-IsFree freed (return_page valid zone_id z page) n refl (b f),
        )

    pub return-IsStore :
        IsStore valid zone_id (return_page valid zone_id z page) (set lists t others)
    unfolding return_page
    return-IsStore =
        let left = free_one-IsLeft valid zone_id z page 0 (z.freepage_migratetype page) in
        let freed = free_one valid zone_id false z page 0 (z.freepage_migratetype page) in
        record {
          valid_zone = record {
            list_of = put.valid_zone.list_of;
            linked =
                same-IsLinked freed _ put.valid_zone.list_of
                  (record { order = refl; free_list = refl; nr_free = refl }) put.valid_zone.linked;
            tiled = same-IsTiled valid zone_id freed _ refl put.valid_zone.tiled;
          };
          counted = ap (λ n. n + 1) (left.nr_free_pages ∙ store.counted) ∙ sym put.count;
          typed = λ u q h.
              subst (λ f. f q < 4) (sym left.freepage_migratetype)
                (store.typed u q (kept_page u q h).0);
          held = λ u q h.
              let (i, ne) = kept_page u q h in
              let held = store.held u q i in
              pages-IsHeld valid zone_id _ q 0 held.block (λ n j f.
                elim ((IsFree-return_page n).0 f) [
                  | inl g ↦ held-pages valid zone_id z q 0 held n j g
                  | inr g ↦ ne (sym (one_page q n j) ∙ one_page page n g)
                ]);
          once = λ u. if_both IsOnce (u == t) others (lists u) part.once (store.once u);
          alone = λ u v q h i. store.alone u v q (kept_page u q h).0 (kept_page v q i).0;
        }

    pub return-SamePages : SamePages z lists (return_page valid zone_id z page) (set lists t others)
    unfolding SamePages OnList
    return-SamePages n =
        let (a, b) = IsFree-return_page n in
        (
          λ f. elim f [
            | inl g ↦ elim (a g) [
              | inl i ↦ inl i
              | inr i ↦ inr (t, ap (λ v. has v (lists t)) (one_page page n i) ∙ there)
            ]
            | inr (u, h) ↦ inr (u, (kept_page u n h).0)
          ],
          λ f. elim f [
            | inl g ↦ inl (b (inl g))
            | inr (u, h) ↦ elim (Bool-cases (page == n)) [
              | inl x ↦ inl (
                  b (
                    inr (
                      subst (IsIn page 0) (let w : page ≡ n = ground (arith, x) in w)
                        (own_page page))))
              | inr x ↦ inr (u, still u n h x)
            ]
          ],
        )

    pub return-all_pages : t < 3 → suc (all_pages (set lists t others)) ≡ all_pages lists
    return-all_pages lt = omega (arith, set-all_pages t lists others lt, part.shorter)
