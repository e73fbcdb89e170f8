-- ===== src/Slob/FirstFit.antt =====
-- First fit on the list of a page's free blocks: the abstract view of `slob_page_alloc`.
pub mod Sound
pub mod Complete
use my_posts.Prelude.{ℕ, suc, ◌+◌, ◌-◌, Option, none, some, List, [], ◌∷◌, leb, ◌==◌, if◌then◌else◌}
use my_posts.Slob.Block.{Ptr}
use my_posts.Slob.FreeList.{Block}
use my_posts.Slob.PageAlloc.{Align, align_ptr}

-- A block of `s` units at `a` in front of `bs`, if it has any units.
abbrev pub piece : Ptr → ℕ → List Block → List Block
piece a s bs = if s == 0 then bs else (a, s) ∷ bs

-- What is left of a block when `units` units are taken `d` units behind its start.
abbrev pub pieces : Ptr → ℕ → ℕ → ℕ → List Block → List Block
pieces a s d units bs = piece a d (piece (a + d + units) (s - d - units) bs)

-- `b` goes back in front of what a search found further on.
abbrev pub keep : Block → Option (Ptr × List Block) → Option (Ptr × List Block)
keep b none = none
keep b (some (p, bs)) = some (p, b ∷ bs)

-- The first block with room for `units` aligned units, and the blocks that stay free.
unfoldable pub first_fit : Align → ℕ → ℕ → List Block → Option (Ptr × List Block)
first_fit K units align [] = none
first_fit K units align ((a, s) ∷ bs) =
    let d = align_ptr K a align - a in
    let rest = keep (a, s) (first_fit K units align bs) in
    if leb (units + d) s then some (a + d, pieces a s d units bs) else rest
