-- ===== src/Slob/Front/Kmalloc.antt =====
-- kmalloc and kfree against the abstract view.
use my_posts.Prelude.{ℕ, ◌+◌, ◌/◌, ◌≡◌, ◌⊎◌, true, false, Option, none, some, List, has}
use my_posts.Slob.Block.{slob_unit, units_of, Ptr}
use my_posts.Slob.FreeList.{Block}
use my_posts.Slob.State.{
  Slob, slob_list, wrong_node, Run, ok, bug, stuck, Pointer, nil, zero_size, at,
}
use my_posts.Slob.Alloc.Search.{Allocated}
use my_posts.Slob.Alloc.Entry.{whole, NoPage}
use my_posts.Slob.Front.{load_int, Arch}

-- An object of `size` bytes at `p`, behind its size, in page `n`, of which `bs` was free before.
pub record Object (ma : ℕ) (F : ℕ → List Block) (n size : ℕ) (bs : List Block) (p : Ptr) (s' : Slob)
    : Type 0 where
  pub block : Ptr
  pub behind : p ≡ block + ma / slob_unit
  pub allocated : Allocated F n (units_of (size + ma)) ma bs block s'
  pub header : load_int s'.mem block ≡ size

module _ (A : Arch) (s : Slob) (F : ℕ → List Block) (size : ℕ) (nid fresh : Option ℕ) where
  -- What kmalloc may return, as for `slob_alloc`.
  abbrev pub Kmalloced : Run (Pointer × Slob) → Type 0
  Kmalloced (ok (at p, s')) =
      ((n : ℕ) × (has n (s.pages (slob_list (size + A.minalign))) ≡ true)
        × (wrong_node nid (s.page n).nid ≡ false)
        × Object A.minalign F n size (F n) p s')
      ⊎ ((n : ℕ) × (fresh ≡ some n)
          × NoPage s F (size + A.minalign) A.minalign nid
          × Object A.minalign F n size (whole n) p s')
  Kmalloced (ok (nil, s')) =
      (fresh ≡ none) × NoPage s F (size + A.minalign) A.minalign nid × (s' ≡ s)
  Kmalloced (ok (zero_size, s')) = ⊥
  Kmalloced bug = ⊥
  Kmalloced stuck = ⊥
