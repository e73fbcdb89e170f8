-- ===== src/Buddy/Pcp/Store.antt =====
-- A zone and the pages that stand on per-cpu lists.
use mathlib.Core.Path.{subst}
use my_posts.Prelude.{
  ℕ, zero, suc, ◌+◌, ◌<◌, ◌≡◌, refl, sym, ap, ◌∙◌, arith, Bool, true, false, ◌||◌, List, [], ◌∷◌,
  ◌++◌, ◌==◌, length, has, has-append, length-append, IsOnce, set,
}
use my_posts.Buddy.{Zone, migrate_types}
use my_posts.Buddy.Pcp.{split_last}
use my_posts.Buddy.Valid.{IsValid, IsHeld}
use my_posts.Buddy.Valid.Count.{free_count}

-- The number of pages on the lists.
abbrev pub all_pages : (ℕ → List ℕ) → ℕ
all_pages lists = length (lists 0) + length (lists 1) + length (lists 2)

unfoldable pub OnList : (ℕ → List ℕ) → ℕ → Type 0
OnList lists n = (t : ℕ) × (has n (lists t) ≡ true)

module _ (valid : ℕ → Bool) (zone_id : ℕ → ℕ) where
  -- The zone is valid and counted, and each page on a list is held, has a migrate type that there is, and is on no
  -- other list.
  pub record IsStore (z : Zone) (lists : ℕ → List ℕ) : Type 0 where
    pub valid_zone : IsValid valid zone_id z
    pub counted : z.nr_free_pages ≡ free_count z
    pub typed : (t p : ℕ) → has p (lists t) ≡ true → z.freepage_migratetype p < migrate_types
    pub held : (t p : ℕ) → has p (lists t) ≡ true → IsHeld valid zone_id z p 0
    pub once : (t : ℕ) → IsOnce (lists t)
    pub alone : (t u p : ℕ) → has p (lists t) ≡ true → has p (lists u) ≡ true → t ≡ u

-- One page taken from the list.
pub split_last-append :
    (p : ℕ) (ps : List ℕ) → p ∷ ps ≡ (split_last p ps).0 ++ ((split_last p ps).1 ∷ [])
unfolding split_last
split_last-append p [] = refl
split_last-append p (q ∷ qs) = ap (λ t. p ∷ t) (split_last-append q qs)

-- What is left of a list without its last page.
pub record IsRest (page : ℕ) (list others : List ℕ) : Type 0 where
  pub has_all : (q : ℕ) → has q list ≡ (has q others || (page == q))
  pub once : IsOnce others
  pub out : has page others ≡ false
  pub shorter : length list ≡ suc (length others)

append-out :
    (page : ℕ) (others : List ℕ)
    → IsOnce (others ++ (page ∷ []))
    → IsOnce others × (has page others ≡ false)
append-out page [] once = (_, refl)
append-out page (q ∷ qs) once =
    let (a, b) = append-out page qs once.1 in
    let c = sym (has-append q qs (page ∷ [])) ∙ once.0 in
    ((ground (arith, c), a), ground (arith, b, c))

append-IsRest :
    (page : ℕ) (others : List ℕ)
    → IsOnce (others ++ (page ∷ []))
    → IsRest page (others ++ (page ∷ [])) others
append-IsRest page others once =
    let (a, b) = append-out page others once in
    record {
      has_all = λ q. has-append q others (page ∷ []) ∙ ground arith;
      once = a;
      out = b;
      shorter = omega (arith, length-append others (page ∷ []));
    }

pub split_last-IsRest :
    (p : ℕ) (ps : List ℕ)
    → IsOnce (p ∷ ps)
    → IsRest (split_last p ps).1 (p ∷ ps) (split_last p ps).0
split_last-IsRest p ps once =
    subst (λ l. IsRest (split_last p ps).1 l (split_last p ps).0) (sym (split_last-append p ps))
      (append-IsRest (split_last p ps).1 (split_last p ps).0
        (subst IsOnce (split_last-append p ps) once))

-- A list changed among three.
pub set-all_pages :
    (t : ℕ) (lists : ℕ → List ℕ) (l : List ℕ)
    → t < 3
    → all_pages (set lists t l) + length (lists t) ≡ all_pages lists + length l
set-all_pages zero lists l lt = omega arith
set-all_pages (suc zero) lists l lt = omega arith
set-all_pages (suc (suc zero)) lists l lt = omega arith
set-all_pages (suc (suc (suc t))) lists l lt = absurd (omega (arith, lt))
