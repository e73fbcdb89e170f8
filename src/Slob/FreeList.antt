-- ===== src/Slob/FreeList.antt =====
-- The free list of one page as a list of blocks: what the memory encodes, and what is free.
use my_posts.Prelude.{ℕ, ◌+◌, ◌≤◌, ◌<◌, ◌≡◌, ◌⊎◌, List, [], ◌∷◌, arith, inl, inr, length}
use my_posts.Slob.Block.{page_units, Ptr, Mem, base, Header, Fits, Header-frame}

-- A free block: its first unit and its size in units.
abbrev pub Block : Type 0
Block = Ptr × ℕ

-- Where the list goes on: the first block, or the end of the page.
abbrev pub first : ℕ → List Block → Ptr
first n [] = base n + page_units
first n ((a, s) ∷ bs) = a

-- The memory holds the header of each block, linked to the next one.
abbrev pub Encodes : Mem → ℕ → List Block → Type 0
Encodes m n [] = Unit
Encodes m n ((a, s) ∷ bs) = Header m n a s (first n bs) × Encodes m n bs

-- The blocks lie in page `n` from `lo` on, in address order, and no two of them touch: behind a
-- block the next one starts one unit later at the earliest.
abbrev pub Ordered : ℕ → Ptr → List Block → Type 0
Ordered n lo [] = lo ≤ base n + page_units + 1
Ordered n lo ((a, s) ∷ bs) = (lo ≤ a) × (1 ≤ s) × Ordered n (a + s + 1) bs

-- The unit `x` is in a free block.
abbrev pub Free : Ptr → List Block → Type 0
Free x [] = ⊥
Free x ((a, s) ∷ bs) = ((a ≤ x) × (x < a + s)) ⊎ Free x bs

-- The free units of the page: what `sp->units` counts.
abbrev pub total : List Block → ℕ
total [] = 0
total ((a, s) ∷ bs) = s + total bs

module _ (n : ℕ) where
  -- The link behind `k` leads on, and not out of the page.
  pub first_bounds :
      (k : ℕ) (bs : List Block)
      → Ordered n (k + 1) bs
      → (k ≤ first n bs) × (first n bs ≤ base n + page_units)
  first_bounds k [] o = omega arith
  first_bounds k ((a, s) ∷ []) o = omega arith
  first_bounds k ((a, s) ∷ (b, t) ∷ bs) o =
      let rest = first_bounds (a + s) ((b, t) ∷ bs) o.2 in omega arith

  pub Ordered-weaken :
      (lo lo' : ℕ) (bs : List Block) → lo' ≤ lo → Ordered n lo bs → Ordered n lo' bs
  Ordered-weaken lo lo' [] h o = omega arith
  Ordered-weaken lo lo' ((a, s) ∷ bs) h o = (omega arith, o.1, o.2)

  -- The place of the first block of an ordered list.
  pub Fits-cons :
      (a s : ℕ) (bs : List Block) → base n ≤ a → Ordered n a ((a, s) ∷ bs) → Fits n a s (first n bs)
  Fits-cons a s bs h o =
      let b = first_bounds (a + s) bs o.2 in
      record { inside = h; some_units = o.1; before = b.0; ends = b.1 }

  -- A free unit lies at `lo` or later, and in the page.
  pub Free_bounds :
      (lo x : ℕ) (bs : List Block)
      → Ordered n lo bs
      → Free x bs
      → (lo ≤ x) × (x < base n + page_units)
  Free_bounds lo x [] o h = absurd h
  Free_bounds lo x ((a, s) ∷ bs) o (inl h) = let b = first_bounds (a + s) bs o.2 in omega arith
  Free_bounds lo x ((a, s) ∷ bs) o (inr h) =
      let r = Free_bounds (a + s + 1) x bs o.2 h in omega arith

  -- The list survives a write that spares everything from its first unit to the page's end.
  pub Encodes-frame :
      (m m' : Mem) (lo : ℕ) (bs : List Block)
      → ((q : Ptr) → lo ≤ q → q < base n + page_units → m' q ≡ m q)
      → Ordered n lo bs
      → Encodes m n bs
      → Encodes m' n bs
  Encodes-frame m m' lo [] same o e = tt
  Encodes-frame m m' lo ((a, s) ∷ bs) same o (h, e) =
      let b = first_bounds (a + s) bs o.2 in
      (
        Header-frame m m' n a s (first n bs) o.1 (λ q p r. same q (omega arith) (omega arith)) h,
        Encodes-frame m m' (a + s + 1) bs (λ q p r. same q (omega arith) r) o.2 e,
      )

  -- A page has room for so many blocks only.
  pub length-le :
      (lo : ℕ) (bs : List Block) → Ordered n lo bs → length bs + lo ≤ base n + page_units + 1
  length-le lo [] o = omega arith
  length-le lo ((a, s) ∷ bs) o = omega (arith, length-le (a + s + 1) bs o.2)
