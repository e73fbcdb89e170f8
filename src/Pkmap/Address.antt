-- ===== src/Pkmap/Address.antt =====
-- The hash table behind page_address, ulk_pkmap/highmem.c. A slot stands for its address, and has its own
-- entry of page_address_maps.
pub mod Buckets
pub mod Refine
use my_posts.Prelude.{
  ℕ, Bool, true, false, Option, none, some, List, [], ◌∷◌, ◌++◌, ◌==◌, if◌then◌else◌, set,
}

-- `page_address_maps`, with the page and the address of each entry, and the lists of `page_address_htable`.
pub record Table : Type 0 where
  pub page : ℕ → ℕ
  pub address : ℕ → ℕ
  pub htable : ℕ → List ℕ

-- The walk along a bucket's list.
unfoldable pub find : Table → ℕ → List ℕ → Option ℕ
find t p [] = none
find t p (i ∷ is) = let rest = find t p is in if t.page i == p then some (t.address i) else rest

-- The list without the first entry for the page.
unfoldable pub unlink : Table → ℕ → List ℕ → List ℕ
unlink t p [] = []
unlink t p (i ∷ is) = let rest = unlink t p is in if t.page i == p then is else i ∷ rest

-- `hash_ptr`, PageHighMem and `lowmem_page_address`.
module _ (hash_ptr : ℕ → ℕ) (is_high : ℕ → Bool) (lowmem : ℕ → Option ℕ) where
  unfoldable pub page_address : Table → ℕ → Option ℕ
  unfolding find
  page_address t p = if is_high p then find t p (t.htable (hash_ptr p)) else lowmem p

  -- `set_page_address`; none where its BUG_ON fails, and no address removes the page.
  unfoldable pub set_page_address : Table → ℕ → Option ℕ → Option Table
  unfolding unlink
  set_page_address t p none =
      let pas = hash_ptr p in
      if is_high p
      then some (record t { htable = set t.htable pas (unlink t p (t.htable pas)) })
      else none
  set_page_address t p (some i) =
      let pas = hash_ptr p in
      if is_high p
      then some (record {
        page = set t.page i p;
        address = set t.address i i;
        htable = set t.htable pas (t.htable pas ++ (i ∷ []));
      })
      else none
