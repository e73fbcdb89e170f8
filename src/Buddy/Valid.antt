-- ===== src/Buddy/Valid.antt =====
-- What holds of a zone between the steps of the buddy system.
pub mod Lists
pub mod Drop
pub mod Add
pub mod Halves
pub mod Count
pub mod Same
pub mod Pages
use my_posts.Prelude.{
  ℕ, suc, ◌+◌, ◌-◌, ◌%◌, ◌^◌, ◌≤◌, ◌<◌, ◌≡◌, ◌≢◌, ◌⊎◌, Bool, true, false, ◌&&◌, Option, some, List,
  ◌==◌, length, has, IsOnce, set,
}
use my_posts.Buddy.{
  Zone, has_order, index, max_order, migrate_types, page_is_buddy, rmv_page_order, set_page_order,
  set_list, list_del,
}
use my_posts.Buddy.Pair.{buddy}

-- The lengths of the lists of an order, one for each of the `migrate_types`.
abbrev pub in_all : (ℕ → List ℕ) → ℕ
in_all list = length (list 0) + length (list 1) + length (list 2) + length (list 3)

-- The lists agree with the orders of the pages. `list_of` is the migrate type of the list on which a free page stands.
pub record IsListed (z : Zone) (list_of : ℕ → ℕ) : Type 0 where
  pub once : (o mt : ℕ) → IsOnce (z.free_list o mt)
  pub on_list :
      (o mt p : ℕ) → has p (z.free_list o mt) ≡ (has_order (z.order p) o && (list_of p == mt))
  pub typed : (p o : ℕ) → z.order p ≡ some o → list_of p < migrate_types

-- `nr_free` counts the blocks on the lists of an order.
pub record IsLinked (z : Zone) (list_of : ℕ → ℕ) : Type 0 where
  pub listed : IsListed z list_of
  pub tally : (o : ℕ) → z.nr_free o ≡ in_all (z.free_list o)

-- The page with number `n` is in the block of order `o` at `p`.
unfoldable pub IsIn : (p o n : ℕ) → Type 0
IsIn p o n = (p ≤ n) × (n < p + 2 ^ o)

pub IsApart : (p o q k : ℕ) → Type 0
IsApart p o q k = (p + 2 ^ o ≤ q) ⊎ (q + 2 ^ k ≤ p)

-- The page with number `n` is in a free block.
unfoldable pub IsFree : Zone → ℕ → Type 0
IsFree z n = (q : ℕ) × (k : ℕ) × (z.order q ≡ some k) × IsIn q k n

module _ (valid : ℕ → Bool) (zone_id : ℕ → ℕ) where
  -- A block that is aligned in its range of the memory map, without holes.
  pub record IsBlock (p o : ℕ) : Type 0 where
    pub order : o < max_order
    pub aligned : index p % 2 ^ o ≡ 0
    pub whole : (n : ℕ) → IsIn p o n → valid n ≡ true

  -- The free blocks are blocks, apart from each other, and none has a free buddy.
  pub record IsTiled (z : Zone) : Type 0 where
    pub block : (p o : ℕ) → z.order p ≡ some o → IsBlock p o
    pub apart : (p o q k : ℕ) → z.order p ≡ some o → z.order q ≡ some k → p ≢ q → IsApart p o q k
    pub maximal :
        (p o : ℕ)
        → z.order p ≡ some o
        → suc o < max_order
        → page_is_buddy valid zone_id z p (buddy p o) o ≡ false

  pub record IsValid (z : Zone) : Type 0 where
    pub list_of : ℕ → ℕ
    pub linked : IsLinked z list_of
    pub tiled : IsTiled z

  -- A block that is not free, in hand or allocated.
  pub record IsHeld (z : Zone) (p o : ℕ) : Type 0 where
    pub block : IsBlock p o
    pub apart : (q k : ℕ) → z.order q ≡ some k → IsApart p o q k

-- A free block is taken from its list, and put on one.
abbrev pub drop_block : Zone → (p o : ℕ) → Zone
drop_block z p o =
    let unlinked = list_del z p o in
    rmv_page_order (record unlinked { nr_free = set z.nr_free o (z.nr_free o - 1) }) p

abbrev pub add_block : Zone → (p o mt : ℕ) → List ℕ → Zone
add_block z p o mt pages =
    let listed = set_list z o mt pages in
    set_page_order (record listed { nr_free = set z.nr_free o (z.nr_free o + 1) }) p o
