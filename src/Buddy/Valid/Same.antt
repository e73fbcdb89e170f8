-- ===== src/Buddy/Valid/Same.antt =====
-- What holds of a zone depends on its orders, its lists and its counts.
use mathlib.Core.Path.{subst}
use my_posts.Prelude.{
  Bool, ℕ, ◌≡◌, sym, ap, ◌∙◌, ◌&&◌, ◌==◌, has, IsOnce, not, false, if◌then◌else◌,
}
use my_posts.Buddy.{Zone, has_order, page_is_buddy}
use my_posts.Buddy.Pair.{buddy}
use my_posts.Buddy.Valid.{in_all, IsListed, IsLinked, IsTiled, IsHeld, IsFree}
use my_posts.Buddy.Valid.Count.{free_count, weight}

-- Two zones agree on these.
pub record IsSame (a b : Zone) : Type 0 where
  pub order : b.order ≡ a.order
  pub free_list : b.free_list ≡ a.free_list
  pub nr_free : b.nr_free ≡ a.nr_free

pub same-IsListed :
    (a b : Zone) (list_of : ℕ → ℕ)
    → ((q : ℕ) → b.order q ≡ a.order q)
    → b.free_list ≡ a.free_list
    → IsListed a list_of
    → IsListed b list_of
same-IsListed a b list_of e f listed = record {
  once = λ o mt. subst (λ l. IsOnce (l o mt)) (sym f) (listed.once o mt);
  on_list = λ o mt p.
      ap (λ l. has p (l o mt)) f
      ∙ listed.on_list o mt p
      ∙ ap (λ x. has_order x o && (list_of p == mt)) (sym (e p));
  typed = λ p o h. listed.typed p o (sym (e p) ∙ h);
}

pub same-IsLinked :
    (a b : Zone) (list_of : ℕ → ℕ) → IsSame a b → IsLinked a list_of → IsLinked b list_of
same-IsLinked a b list_of same linked = record {
  listed = same-IsListed a b list_of (λ q. ap (λ f. f q) same.order) same.free_list linked.listed;
  tally = λ o.
      ap (λ f. f o) same.nr_free ∙ linked.tally o ∙ ap (λ l. in_all (l o)) (sym same.free_list);
}

pub same-IsFree : (a b : Zone) (n : ℕ) → b.order ≡ a.order → IsFree a n → IsFree b n
unfolding IsFree
same-IsFree a b n e f = let (q, k, h, i) = f in (q, k, ap (λ g. g q) e ∙ h, i)

pub same-free_count : (a b : Zone) → IsSame a b → free_count b ≡ free_count a
same-free_count a b same = ap (weight 11) same.nr_free

module _ (valid : ℕ → Bool) (zone_id : ℕ → ℕ) (a b : Zone) (e : b.order ≡ a.order) where
  pub same-IsTiled : IsTiled valid zone_id a → IsTiled valid zone_id b
  unfolding page_is_buddy
  same-IsTiled tiled = record {
    block = λ p o h. tiled.block p o (ap (λ g. g p) (sym e) ∙ h);
    apart =
        λ p o q k h i. tiled.apart p o q k (ap (λ g. g p) (sym e) ∙ h) (ap (λ g. g q) (sym e) ∙ i);
    maximal = λ p o h lt.
        ap
          (λ g.
            if not (valid (buddy p o))
            then false
            else (if not (zone_id p == zone_id (buddy p o))
                then false
                else has_order (g (buddy p o)) o))
          e
        ∙ tiled.maximal p o (ap (λ g. g p) (sym e) ∙ h) lt;
  }

  pub same-IsHeld : (p o : ℕ) → IsHeld valid zone_id a p o → IsHeld valid zone_id b p o
  same-IsHeld p o held = record {
    block = held.block;
    apart = λ q k h. held.apart q k (ap (λ g. g q) (sym e) ∙ h);
  }
