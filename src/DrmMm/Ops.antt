-- ===== src/DrmMm/Ops.antt =====
-- The operations of drm_mm.c that change the allocator.
use my_posts.Prelude.{
  ℕ, Bool, true, false, not, ◌||◌, Option, none, some, List, [], ◌∷◌, ltb, ◌==◌, if◌then◌else◌,
}
use my_posts.DrmMm.{
  Node, Mm, Result, ok, enospc, bug, word, add, sub, set_node, prev_in, insert_in, remove,
  hole_start, hole_end, align_start, clip, Adjust, adjusted, search_free,
}

-- Store the new node `n` of `size` at `a` behind `h`, whose hole runs from `hs` to `he`.
unfoldable pub put_node : Mm → (h n a size color hs he : ℕ) → Mm
put_node mm h n a size color hs he =
    let at_start = a == hs in
    let hole = mm.node h in
    let before = if at_start then record hole { hole_follows = false } else hole in
    let more = ltb (add a size) he in
    let new = record (mm.node n) {
      start = a;
      size = size;
      color = color;
      allocated = true;
      hole_follows = more;
    } in
    let holes = if at_start then remove h mm.holes else mm.holes in
    record mm {
      node = set_node (set_node mm.node h before) n new;
      nodes = insert_in h n 0 mm.nodes;
      holes = if more then n ∷ holes else holes;
    }

-- The range version checks the flag of the hole's node.
unfoldable pub flag_missing : Option (ℕ × ℕ) → Node → Bool
flag_missing none hole = false
flag_missing (some r) hole = not hole.hole_follows

module _ (adjust : Adjust) where
  -- `drm_mm_insert_helper` and, with a range, `drm_mm_insert_helper_range`.
  unfoldable pub insert_helper : Mm → (h n size alignment color : ℕ) → Option (ℕ × ℕ) → Result Mm
  insert_helper mm h n size alignment color range =
      let hs = hole_start mm h in
      let he = hole_end mm h in
      let r = adjusted adjust mm h color (clip range (hs, he)) in
      let a = align_start r.0 alignment in
      let past = ltb r.1 (add a size) || ltb (clip range (hs, word)).1 (add a size) in
      if flag_missing range (mm.node h) || (mm.node n).allocated
      then bug
      else (if past then bug else ok (put_node mm h n a size color hs he))

  -- `drm_mm_insert_node_generic` and, with a range, `drm_mm_insert_node_in_range_generic`.
  unfoldable pub insert_node : Mm → (n size alignment color : ℕ) → Option (ℕ × ℕ) → Bool → Result Mm
  unfolding insert_helper
  insert_node mm n size alignment color range want_best =
      let found : Result Mm = elim (search_free adjust mm size alignment color range want_best) [
        | none ↦ enospc
        | some h ↦ insert_helper mm h n size alignment color range
      ] in
      if not (mm.scanned_blocks == 0) then bug else found

-- The node takes its place, which the caller has chosen, behind the hole `h`.
unfoldable pub reserve_in : Mm → (h n end hs he : ℕ) → Mm
reserve_in mm h n end hs he =
    let hole = mm.node h in
    let new = mm.node n in
    let at_start = new.start == hs in
    let more = not (end == he) in
    let before = if at_start then record hole { hole_follows = false } else hole in
    let holes = if at_start then remove h mm.holes else mm.holes in
    record mm {
      node =
          set_node (set_node mm.node h before) n
            (record new { allocated = true; hole_follows = more });
      nodes = insert_in h n 0 mm.nodes;
      holes = if more then n ∷ holes else holes;
    }

unfoldable pub reserve_loop : Mm → ℕ → List ℕ → Result Mm
reserve_loop mm n [] = enospc
reserve_loop mm n (h ∷ hs) =
    let end = add (mm.node n).start (mm.node n).size in
    let a = hole_start mm h in
    let b = hole_end mm h in
    let rest = reserve_loop mm n hs in
    if ltb (mm.node n).start a || ltb b end then rest else ok (reserve_in mm h n end a b)

-- `drm_mm_reserve_node`
unfoldable pub reserve_node : Mm → ℕ → Result Mm
unfolding reserve_loop
reserve_node mm n = reserve_loop mm n mm.holes

-- What `drm_mm_remove_node` does once its checks are passed; `p` is the node in front.
unfoldable pub unlink_node : Mm → ℕ → ℕ → Mm
unlink_node mm n p =
    let holes = if (mm.node n).hole_follows then remove n mm.holes else mm.holes in
    let rest = if (mm.node p).hole_follows then remove p holes else holes in
    record mm {
      node =
          set_node (set_node mm.node p (record (mm.node p) { hole_follows = true })) n
            (record (mm.node n) { allocated = false });
      nodes = remove n mm.nodes;
      holes = p ∷ rest;
    }

-- `drm_mm_remove_node`
unfoldable pub remove_node : Mm → ℕ → Result Mm
unfolding prev_in
remove_node mm n =
    let sp = mm.node n in
    let p = prev_in n 0 mm.nodes in
    let no_hole = hole_start mm n == hole_end mm n in
    if not sp.allocated
    then ok mm
    else (if sp.scanned_block || sp.scanned_prev_free || sp.scanned_next_free
        then bug
        else (if sp.hole_follows
            then (if no_hole then bug else ok (unlink_node mm n p))
            else (if no_hole then ok (unlink_node mm n p) else bug)))

-- `drm_mm_init`: the head's hole is the whole range, so its size is negative.
unfoldable pub init : Mm → (start size : ℕ) → Mm
init mm start size = record mm {
  node = set_node mm.node 0 (record (mm.node 0) {
    hole_follows = true;
    scanned_block = false;
    scanned_prev_free = false;
    scanned_next_free = false;
    start = add start size;
    size = sub start (add start size);
  });
  nodes = [];
  holes = 0 ∷ [];
  scanned_blocks = 0;
}

-- `drm_mm_clean`: the ring is back at the head after two steps.
unfoldable pub clean : Mm → Bool
clean mm = elim mm.nodes [ [] ↦ true | _ ∷ [] ↦ true | _ ∷ _ ∷ _ ↦ false ]
