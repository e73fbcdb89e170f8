-- ===== src/Buddy/Bulk/Taken.antt =====
-- The blocks that rmqueue_bulk takes.
use mathlib.Core.Path.{subst}
use mathlib.Core.List.{append_assoc}
use native.Mathlib.Nat.{add-mul, one-mul}
use my_posts.Prelude.{
  ℕ, zero, suc, ◌+◌, ◌*◌, ◌^◌, ◌≤◌, ◌<◌, ◌≡◌, refl, sym, ap, ◌∙◌, ◌↔◌, ◌⊎◌, inl, inr, arith, Bool,
  true, false, Bool-cases, Option, none, some, List, [], ◌∷◌, ◌++◌, ◌==◌, length, has,
  if◌then◌else◌,
}
use my_posts.Buddy.{Zone, max_order, migrate_types}
use my_posts.Buddy.Fallback.{reserve, rmqueue, set_freepage_migratetype}
use my_posts.Buddy.Fallback.Search.{Answers, AllSmall, rmqueue-Answers}
use my_posts.Buddy.Bulk.{bulk}
use my_posts.Buddy.Bulk.Left.{IsKept, KeepTypes, bulk-IsKept}
use my_posts.Buddy.Valid.{IsValid, IsHeld, IsFree, IsIn, IsApart}
use my_posts.Buddy.Valid.Count.{free_count}
use my_posts.Buddy.Valid.Pages.{pages-IsApart, pages-IsHeld, held-pages}
use my_posts.Buddy.Valid.Same.{same-IsLinked, same-IsTiled, same-IsHeld, same-IsFree}
use my_posts.Buddy.Alloc.{IsGiven}

-- The pages as they stand on the list: in the order in which they were taken, or in the opposite one.
unfoldable pub laid : (cold : Bool) → List ℕ → List ℕ
laid cold [] = []
laid cold (p ∷ ps) = let rest = laid cold ps in if cold then rest ++ (p ∷ []) else p ∷ rest

-- The blocks of order `o` on the list are apart from each other.
unfoldable pub AreApart : (o : ℕ) → List ℕ → Type 0
AreApart o [] = Unit
AreApart o (p ∷ ps) = ((q : ℕ) → has q ps ≡ true → IsApart p o q o) × AreApart o ps

-- A page in one of the blocks.
unfoldable pub InSome : (o : ℕ) → List ℕ → ℕ → Type 0
InSome o ps n = (p : ℕ) × (has p ps ≡ true) × IsIn p o n

-- Each block is what __rmqueue returns for the zone that the blocks before it have been taken from, one after the
-- other, with their first pages marked.
module _ (valid spans : ℕ → Bool) (disabled : Bool) (pageblock_order : ℕ) where
  unfoldable pub AreTaken : (o mt : ℕ) → Zone → List ℕ → Type 0
  AreTaken o mt z [] = Unit
  AreTaken o mt z (p ∷ ps) =
      (y : Zone) × (rmqueue valid spans disabled pageblock_order z o mt ≡ (some p, y))
      × AreTaken o mt (set_freepage_migratetype y p mt) ps

module _ (valid : ℕ → Bool) (zone_id : ℕ → ℕ) (spans : ℕ → Bool) (disabled : Bool)
    (pageblock_order : ℕ) where
  -- Up to `n` blocks of order `o` are taken from the zone, and are held; they are fewer only if nothing large
  -- enough is left.
  pub record IsBatch (z : Zone) (o mt n : ℕ) (cold : Bool) (before after : List ℕ)
      (r : Zone × List ℕ × ℕ) : Type 0 where
    pub valid_zone : IsValid valid zone_id r.0
    pub taken : List ℕ
    pub run : AreTaken valid spans disabled pageblock_order o mt z taken
    pub typed : (p : ℕ) → has p taken ≡ true → r.0.freepage_migratetype p < migrate_types
    pub number : length taken ≡ r.2
    pub at_most : r.2 ≤ n
    pub short : r.2 < n → AllSmall r.0 o
    pub placed : r.1 ≡ before ++ (laid cold taken ++ after)
    pub held : (p : ℕ) → has p taken ≡ true → IsHeld valid zone_id r.0 p o
    pub apart : AreApart o taken
    pub count : free_count r.0 + r.2 * 2 ^ o ≡ free_count z
    pub pages : (i : ℕ) → (IsFree r.0 i ⊎ InSome o taken i) ↔ IsFree z i

  none-IsBatch :
      (z : Zone) (o mt n : ℕ) (cold : Bool) (before after : List ℕ)
      → IsValid valid zone_id z
      → (0 < n → AllSmall z o)
      → IsBatch z o mt n cold before after (z, before ++ after, 0)
  unfolding laid AreApart InSome AreTaken KeepTypes IsKept
  none-IsBatch z o mt n cold before after ok small = record {
    valid_zone = ok;
    taken = [];
    run = _;
    typed = λ p h. ground (arith, h);
    number = refl;
    at_most = omega arith;
    short = small;
    placed = refl;
    held = λ p h. ground (arith, h);
    apart = _;
    count = omega arith;
    pages = λ i. (λ f. elim f [ inl g ↦ g | inr (p, h, j) ↦ ground (arith, h) ], λ f. inl f);
  }

  more-IsBatch :
      (z x : Zone) (o mt n p : ℕ) (cold : Bool) (before after b a : List ℕ) (r : Zone × List ℕ × ℕ)
      → IsGiven valid zone_id z p o (set_freepage_migratetype x p mt)
      → rmqueue valid spans disabled pageblock_order z o mt ≡ (some p, x)
      → mt < reserve
      → IsKept mt (set_freepage_migratetype x p mt) r.0
      → ((l : List ℕ) → b ++ (laid cold l ++ a) ≡ before ++ (laid cold (p ∷ l) ++ after))
      → IsBatch (set_freepage_migratetype x p mt) o mt n cold b a r
      → IsBatch z o mt (suc n) cold before after (r.0, r.1, r.2 + 1)
  unfolding laid AreApart InSome AreTaken KeepTypes IsKept
  more-IsBatch z x o mt n p cold before after b a r given eq lt kept place rest =
      let y = set_freepage_migratetype x p mt in
      let free : (i : ℕ) → IsFree r.0 i → IsFree y i = λ i f. (rest.pages i).0 (inl f) in
      record {
        valid_zone = rest.valid_zone;
        taken = p ∷ rest.taken;
        run = (x, eq, rest.run);
        typed = λ q h. elim (Bool-cases (p == q)) [
          | inl t ↦ kept.1 (omega (arith, lt)) q (ground (arith, lt, t))
          | inr t ↦ rest.typed q (ground (arith, h, t))
        ];
        number = omega (arith, rest.number);
        at_most = omega (arith, rest.at_most);
        short = λ lt. rest.short (omega (arith, lt));
        placed = rest.placed ∙ place rest.taken;
        held = λ q h. elim (Bool-cases (p == q)) [
          | inl x ↦
              subst (λ t. IsHeld valid zone_id r.0 t o) (let w : p ≡ q = ground (arith, x) in w)
                (pages-IsHeld valid zone_id r.0 p o given.held.block
                  (λ i j f. held-pages valid zone_id y p o given.held i j (free i f)))
          | inr x ↦ rest.held q (ground (arith, h, x))
        ];
        apart = (
          λ q h. pages-IsApart p o q o (λ i j k.
              held-pages valid zone_id y p o given.held i j ((rest.pages i).0 (inr (q, h, k)))),
          rest.apart,
        );
        count = omega (arith, rest.count, given.count, add-mul r.2 1 (2 ^ o), one-mul (2 ^ o));
        pages = λ i.
            let (c, d) = given.pages i in
            let (e, f) = rest.pages i in
            (
              λ g. elim g [
                | inl k ↦ c (inl (e (inl k)))
                | inr (q, h, j) ↦ elim (Bool-cases (p == q)) [
                  | inl x ↦
                      c (inr (subst (λ t. IsIn t o i) (let w : q ≡ p = ground (arith, x) in w) j))
                  | inr x ↦ c (inl (e (inr (q, ground (arith, h, x), j))))
                ]
              ],
              λ g. elim (d g) [
                | inl k ↦ elim (f k) [
                  | inl l ↦ inl l
                  | inr (q, h, j) ↦ inr (q, ground (arith, h), j)
                ]
                | inr j ↦ inr (p, ground arith, j)
              ],
            );
      }

  marked-IsGiven :
      (z y : Zone) (p o mt : ℕ)
      → IsGiven valid zone_id z p o y
      → IsGiven valid zone_id z p o (set_freepage_migratetype y p mt)
  marked-IsGiven z y p o mt given = record {
    valid_zone = record {
      list_of = given.valid_zone.list_of;
      linked =
          same-IsLinked y _ given.valid_zone.list_of
            (record { order = refl; free_list = refl; nr_free = refl }) given.valid_zone.linked;
      tiled = same-IsTiled valid zone_id y _ refl given.valid_zone.tiled;
    };
    held = same-IsHeld valid zone_id y _ refl p o given.held;
    count = given.count;
    pages = λ i.
        let (a, b) = given.pages i in
        (
          λ f. a (elim f [
            | inl k ↦ inl (same-IsFree (set_freepage_migratetype y p mt) y i refl k)
            | inr k ↦ inr k
          ]),
          λ f. elim (b f) [
            | inl k ↦ inl (same-IsFree y (set_freepage_migratetype y p mt) i refl k)
            | inr k ↦ inr k
          ],
        );
  }

  -- Where the next page goes.
  hot_place :
      (before after l : List ℕ) (p : ℕ)
      → (before ++ (p ∷ [])) ++ (laid false l ++ after) ≡ before ++ (laid false (p ∷ l) ++ after)
  unfolding laid
  hot_place before after l p = append_assoc before (p ∷ []) (laid false l ++ after)

  cold_place :
      (before after l : List ℕ) (p : ℕ)
      → before ++ (laid true l ++ (p ∷ after)) ≡ before ++ (laid true (p ∷ l) ++ after)
  unfolding laid
  cold_place before after l p =
      ap (λ t. before ++ t) (sym (append_assoc (laid true l) (p ∷ []) after))

  -- A round of the loop, after __rmqueue.
  abbrev next :
      (n o mt : ℕ) → (cold : Bool) → (before after : List ℕ) → Option ℕ × Zone → Zone × List ℕ × ℕ
  next n o mt cold before after r = elim r.0 [
    | none ↦ (r.1, before ++ after, 0)
    | some page ↦
        let marked = set_freepage_migratetype r.1 page mt in
        let behind =
          bulk valid spans disabled pageblock_order n marked o mt cold (before ++ (page ∷ []))
            after in
        let front =
          bulk valid spans disabled pageblock_order n marked o mt cold before (page ∷ after) in
        let (z', list, i) = if cold then front else behind in (z', list, i + 1)
  ]

  given-IsBatch :
      (n : ℕ) (z y : Zone) (p o mt : ℕ) (cold : Bool) (before after : List ℕ)
      → IsGiven valid zone_id z p o y
      → rmqueue valid spans disabled pageblock_order z o mt ≡ (some p, y)
      → mt < reserve
      → ((y : Zone) (b a : List ℕ)
          → IsValid valid zone_id y
          → IsBatch y o mt n cold b a (bulk valid spans disabled pageblock_order n y o mt cold b a))
      → IsBatch z o mt (suc n) cold before after (next n o mt cold before after (some p, y))
  given-IsBatch n z y p o mt true before after given eq lt rest =
      let m = marked-IsGiven z y p o mt given in
      more-IsBatch z y o mt n p true before after before (p ∷ after) _ m eq lt
        (bulk-IsKept valid spans disabled pageblock_order n _ o mt true before (p ∷ after))
        (λ l. cold_place before after l p) (rest _ before (p ∷ after) m.valid_zone)
  given-IsBatch n z y p o mt false before after given eq lt rest =
      let m = marked-IsGiven z y p o mt given in
      more-IsBatch z y o mt n p false before after (before ++ (p ∷ [])) after _ m eq lt
        (bulk-IsKept valid spans disabled pageblock_order n _ o mt false (before ++ (p ∷ [])) after)
        (λ l. hot_place before after l p) (rest _ (before ++ (p ∷ [])) after m.valid_zone)

  one-IsBatch :
      (n : ℕ) (z : Zone) (o mt : ℕ) (cold : Bool) (before after : List ℕ)
      → IsValid valid zone_id z
      → o < max_order
      → mt < reserve
      → (r : Option ℕ × Zone) → rmqueue valid spans disabled pageblock_order z o mt ≡ r
      → Answers valid zone_id z o (AllSmall z o) r
      → ((y : Zone) (b a : List ℕ)
          → IsValid valid zone_id y
          → IsBatch y o mt n cold b a (bulk valid spans disabled pageblock_order n y o mt cold b a))
      → IsBatch z o mt (suc n) cold before after (next n o mt cold before after r)
  unfolding Answers
  one-IsBatch n z o mt cold before after ok lo lt (none, y) eq (e, small) rest =
      subst (λ t. IsBatch z o mt (suc n) cold before after (t, before ++ after, 0)) (sym e)
        (none-IsBatch z o mt (suc n) cold before after ok (λ _. small))
  one-IsBatch n z o mt cold before after ok lo lt (some p, y) eq given rest =
      given-IsBatch n z y p o mt cold before after given eq lt rest

  pub bulk-IsBatch :
      (n : ℕ) (z : Zone) (o mt : ℕ) (cold : Bool) (before after : List ℕ)
      → IsValid valid zone_id z
      → o < max_order
      → mt < reserve
      → IsBatch z o mt n cold before after
          (bulk valid spans disabled pageblock_order n z o mt cold before after)
  unfolding bulk
  bulk-IsBatch zero z o mt cold before after ok lo lt =
      none-IsBatch z o mt 0 cold before after ok (λ l. absurd (omega (arith, l)))
  bulk-IsBatch (suc n) z o mt cold before after ok lo lt =
      one-IsBatch n z o mt cold before after ok lo lt
        (rmqueue valid spans disabled pageblock_order z o mt) refl
        (rmqueue-Answers valid zone_id spans disabled pageblock_order z o mt ok lo lt)
        (λ y b a ok'. bulk-IsBatch n y o mt cold b a ok' lo lt)
