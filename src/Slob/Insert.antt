-- ===== src/Slob/Insert.antt =====
-- Insertion of a block into a list in address order, joined with the blocks that it touches: the
-- abstract view of what `slob_free` does in a page.
pub mod Laws
use my_posts.Prelude.{ℕ, ◌+◌, List, [], ◌∷◌, ltb, ◌==◌, if◌then◌else◌}
use my_posts.Slob.Block.{Ptr}
use my_posts.Slob.FreeList.{Block}

-- A block in front of a list, joined with the first block if they touch.
unfoldable pub join : Ptr → ℕ → List Block → List Block
join a s [] = (a, s) ∷ []
join a s ((c, t) ∷ bs) = if a + s == c then (a, s + t) ∷ bs else (a, s) ∷ (c, t) ∷ bs

unfoldable pub insert : Ptr → ℕ → List Block → List Block
insert b u [] = (b, u) ∷ []
insert b u ((a, s) ∷ bs) = if ltb b a then join b u ((a, s) ∷ bs) else join a s (insert b u bs)
