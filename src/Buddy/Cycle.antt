-- ===== src/Buddy/Cycle.antt =====
-- A block that is allocated and freed again.
use mathlib.Core.Path.{subst}
use my_posts.Prelude.{ℕ, ◌<◌, ◌≡◌, ◌∙◌, ◌↔◌, Bool, false, some}
use my_posts.Buddy.{Zone, max_order, migrate_types, free_one}
use my_posts.Buddy.Valid.{IsValid, IsFree}
use my_posts.Buddy.Valid.Count.{free_count}
use my_posts.Buddy.Free.{free_one-IsPut}
use my_posts.Buddy.Alloc.{IsGiven}
use my_posts.Buddy.Fallback.{reserve, rmqueue}
use my_posts.Buddy.Fallback.Search.{Answers, rmqueue-Answers}

module _ (valid : ℕ → Bool) (zone_id : ℕ → ℕ) where
  -- The same pages are free.
  pub record IsRestored (z r : Zone) : Type 0 where
    pub valid_zone : IsValid valid zone_id r
    pub count : free_count r ≡ free_count z
    pub pages : (n : ℕ) → IsFree r n ↔ IsFree z n

module _ (valid : ℕ → Bool) (zone_id : ℕ → ℕ) (spans : ℕ → Bool) (disabled : Bool)
    (pageblock_order : ℕ) where
  -- A block that __rmqueue has returned from a valid zone, for an order below MAX_ORDER and a type
  -- other than MIGRATE_RESERVE, and that __free_one_page takes back, to a list of any type, leaves a
  -- valid zone with the same free pages as before, and as many of them on the lists.
  pub free_one-rmqueue :
      (z r : Zone) (p o mt kind : ℕ)
      → IsValid valid zone_id z
      → o < max_order
      → mt < reserve
      → kind < migrate_types
      → rmqueue valid spans disabled pageblock_order z o mt ≡ (some p, r)
      → IsRestored valid zone_id z (free_one valid zone_id false r p o kind)
  unfolding Answers
  free_one-rmqueue z r p o mt kind ok lo lt lk e =
      let given : IsGiven valid zone_id z p o r =
        subst (Answers valid zone_id z o _) e
          (rmqueue-Answers valid zone_id spans disabled pageblock_order z o mt ok lo lt) in
      let put = free_one-IsPut valid zone_id r p o kind given.valid_zone given.held lk in
      record {
        valid_zone = put.valid_zone;
        count = put.count ∙ given.count;
        pages = λ n.
            let (a, b) = put.pages n in let (c, d) = given.pages n in (λ i. c (a i), λ i. b (d i));
      }
