-- ===== src/DrmMm.antt =====
-- The range allocator of gfx_drm_mm/drm_mm.c and drm_mm.h (the same code stands in gfx_gem_mm): the
-- nodes in address order on `node_list`, and those that a hole follows on `hole_stack`.
pub mod Ops
pub mod Layout
pub mod Place
pub mod Search
pub mod Fit
pub mod Insert
pub mod Reserve
pub mod Remove
pub mod Swap
pub mod Replace
pub mod Scan
pub mod RoundTrip
pub mod Tests
use my_posts.Prelude.{
  ℕ, zero, suc, ◌+◌, ◌-◌, ◌%◌, ◌^◌, Bool, true, false, not, ◌&&◌, ◌||◌, Option, none, some, List,
  [], ◌∷◌, ltb, leb, ◌==◌, if◌then◌else◌,
}

-- `struct drm_mm_node`; `scan_prev` and `scan_next` are the `node_list` that a scanned node keeps.
pub record Node : Type 0 where
  pub start : ℕ
  pub size : ℕ
  pub color : ℕ
  pub hole_follows : Bool
  pub allocated : Bool
  pub scanned_block : Bool
  pub scanned_prev_free : Bool
  pub scanned_next_free : Bool
  pub scanned_preceeds_hole : Bool
  pub scan_prev : ℕ
  pub scan_next : Option ℕ

-- `struct drm_mm`. Node 0 is `head_node`; `nodes` is `node_list` behind it, `holes` is `hole_stack`.
pub record Mm : Type 0 where
  pub node : ℕ → Node
  pub nodes : List ℕ
  pub holes : List ℕ
  pub scan_check_range : Bool
  pub scan_alignment : ℕ
  pub scan_color : ℕ
  pub scan_size : ℕ
  pub scan_hit_start : ℕ
  pub scan_hit_end : ℕ
  pub scanned_blocks : ℕ
  pub scan_start : ℕ
  pub scan_end : ℕ
  pub prev_scanned_node : Option ℕ

-- How a call ends: `bug` is a failed BUG_ON, `enospc` is -ENOSPC.
pub data Result (A : Type 0) : Type 0 where
  ok : A → Result A
  enospc : Result A
  bug : Result A

-- `unsigned long`
abbrev pub word : ℕ
word = 2 ^ 64

abbrev pub add : ℕ → ℕ → ℕ
add a b = (a + b) % word

abbrev pub sub : ℕ → ℕ → ℕ
sub a b = (a + word - b) % word

abbrev pub set_node : (ℕ → Node) → ℕ → Node → ℕ → Node
set_node f k v n = if n == k then v else f n

-- The entry behind `h` on the ring that goes on from `p` through `ks` back to the head.
unfoldable pub next_in : ℕ → ℕ → List ℕ → ℕ
next_in h p [] = 0
next_in h p (k ∷ ks) = let rest = next_in h k ks in if p == h then k else rest

-- The entry in front of `h`.
unfoldable pub prev_in : ℕ → ℕ → List ℕ → ℕ
prev_in h p [] = p
prev_in h p (k ∷ ks) = let rest = prev_in h k ks in if k == h then p else rest

-- `list_add(n, h)`: `n` comes behind `h`.
unfoldable pub insert_in : ℕ → ℕ → ℕ → List ℕ → List ℕ
insert_in h n p [] = n ∷ []
insert_in h n p (k ∷ ks) = let rest = k ∷ insert_in h n k ks in if p == h then n ∷ k ∷ ks else rest

-- `list_del`
unfoldable pub remove : ℕ → List ℕ → List ℕ
remove n [] = []
remove n (k ∷ ks) = let rest = remove n ks in if k == n then rest else k ∷ rest

-- `__drm_mm_hole_node_start`
unfoldable pub hole_start : Mm → ℕ → ℕ
hole_start mm h = add (mm.node h).start (mm.node h).size

-- `__drm_mm_hole_node_end`
unfoldable pub hole_end : Mm → ℕ → ℕ
unfolding next_in
hole_end mm h = (mm.node (next_in h 0 mm.nodes)).start

-- Round up to the alignment, 0 for none.
unfoldable pub align_start : ℕ → ℕ → ℕ
align_start start alignment =
    let tmp = start % alignment in
    if alignment == 0 then start else if tmp == 0 then start else add start (alignment - tmp)

unfoldable pub check_free_hole : (start end size alignment : ℕ) → Bool
unfolding align_start
check_free_hole start end size alignment =
    if ltb (sub end start) size then false else leb (add (align_start start alignment) size) end

-- The restriction to a range, where there is one.
unfoldable pub clip : Option (ℕ × ℕ) → ℕ × ℕ → ℕ × ℕ
clip none (a, b) = (a, b)
clip (some (start, end)) (a, b) = (if ltb a start then start else a, if ltb end b then end else b)

-- `mm->color_adjust`, if it is set: from the node, the color and the hole to the adjusted hole.
abbrev pub Adjust : Type 0
Adjust = Option (Mm → ℕ → ℕ → ℕ × ℕ → ℕ × ℕ)

unfoldable pub adjusted : Adjust → Mm → ℕ → ℕ → ℕ × ℕ → ℕ × ℕ
adjusted none mm h color r = r
adjusted (some f) mm h color r = f mm h color r

-- The hole is passed over: nothing is left of it after the adjustment.
unfoldable pub emptied : Adjust → ℕ × ℕ → Bool
emptied none r = false
emptied (some f) (a, b) = leb b a

module _ (adjust : Adjust) where
  -- A hole can serve the request.
  unfoldable pub serves : Mm → (size alignment color : ℕ) → Option (ℕ × ℕ) → ℕ → Bool
  unfolding adjusted emptied clip check_free_hole
  serves mm size alignment color range h =
      let (a, b) = adjusted adjust mm h color (clip range (hole_start mm h, hole_end mm h)) in
      if emptied adjust (a, b) then false else check_free_hole a b size alignment

  -- The loop over `hole_stack`; `best` and `best_size` are those of the search for the best match.
  unfoldable pub search_loop :
      Mm → (size alignment color : ℕ) → Option (ℕ × ℕ) → Bool → Option ℕ → ℕ → List ℕ → Option ℕ
  unfolding serves
  search_loop mm size alignment color range want_best best best_size [] = best
  search_loop mm size alignment color range want_best best best_size (h ∷ hs) =
      let entry = mm.node h in
      let better = ltb entry.size best_size in
      let pass = search_loop mm size alignment color range want_best best best_size hs in
      let take = search_loop mm size alignment color range want_best (some h) entry.size hs in
      if serves mm size alignment color range h
      then (if not want_best then some h else if better then take else pass)
      else pass

  -- `drm_mm_search_free_generic` and, with a range, `drm_mm_search_free_in_range_generic`.
  unfoldable pub search_free : Mm → (size alignment color : ℕ) → Option (ℕ × ℕ) → Bool → Option ℕ
  unfolding search_loop
  search_free mm size alignment color range want_best =
      search_loop mm size alignment color range want_best none (word - 1) mm.holes
