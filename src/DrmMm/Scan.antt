-- ===== src/DrmMm/Scan.antt =====
-- The eviction scan of drm_mm.c: nodes leave `node_list` one by one until a hole is large enough, and
-- come back in the reverse order.
use my_posts.Prelude.{
  ℕ, ◌+◌, ◌-◌, ◌%◌, ◌^◌, Bool, true, false, ◌&&◌, none, some, ltb, if◌then◌else◌,
}
use my_posts.DrmMm.{
  Mm, Result, ok, bug, set_node, prev_in, insert_in, remove, hole_start, hole_end, check_free_hole,
  clip, Adjust, adjusted,
}

-- `drm_mm_init_scan`
unfoldable pub init_scan : Mm → (size alignment color : ℕ) → Mm
init_scan mm size alignment color = record mm {
  scan_color = color;
  scan_alignment = alignment;
  scan_size = size;
  scanned_blocks = 0;
  scan_hit_start = 0;
  scan_hit_end = 0;
  scan_check_range = false;
  prev_scanned_node = none;
}

-- `drm_mm_init_scan_with_range`
unfoldable pub init_scan_with_range : Mm → (size alignment color start end : ℕ) → Mm
init_scan_with_range mm size alignment color start end = record mm {
  scan_color = color;
  scan_alignment = alignment;
  scan_size = size;
  scanned_blocks = 0;
  scan_hit_start = 0;
  scan_hit_end = 0;
  scan_start = start;
  scan_end = end;
  scan_check_range = true;
  prev_scanned_node = none;
}

-- The node `n` leaves the list; `p` is the node in front.
unfoldable pub scan_unlink : Mm → (n p : ℕ) → Mm
scan_unlink mm n p = record mm {
  node =
      set_node (set_node mm.node p (record (mm.node p) { hole_follows = true })) n
        (record (mm.node n) {
          scanned_block = true;
          scanned_preceeds_hole = (mm.node p).hole_follows;
          scan_prev = p;
          scan_next = mm.prev_scanned_node;
        });
  nodes = remove n mm.nodes;
  scanned_blocks = (mm.scanned_blocks + 1) % 2 ^ 32;
  prev_scanned_node = some n;
}

-- The hole behind `p` serves the scan.
unfoldable pub scan_hits : Adjust → Mm → ℕ → Bool
scan_hits adjust mm p =
    let range = if mm.scan_check_range then some (mm.scan_start, mm.scan_end) else none in
    let r = adjusted adjust mm p mm.scan_color (clip range (hole_start mm p, hole_end mm p)) in
    check_free_hole r.0 r.1 mm.scan_size mm.scan_alignment

-- `drm_mm_scan_add_block`, with its result: a hole has been found.
unfoldable pub scan_add_block : Adjust → Mm → ℕ → Result (Mm × Bool)
unfolding scan_unlink scan_hits
scan_add_block adjust mm n =
    let p = prev_in n 0 mm.nodes in
    let mm' = scan_unlink mm n p in
    let hit = record mm' { scan_hit_start = hole_start mm' p; scan_hit_end = hole_end mm' p } in
    if (mm.node n).scanned_block
    then bug
    else (if scan_hits adjust mm' p then ok (hit, true) else ok (mm', false))

-- The node `n` comes back.
unfoldable pub scan_relink : Mm → ℕ → Mm
scan_relink mm n =
    let p = (mm.node n).scan_prev in
    record mm {
      node =
          set_node
            (set_node mm.node p
              (record (mm.node p) { hole_follows = (mm.node n).scanned_preceeds_hole }))
            n (record (mm.node n) { scanned_block = false });
      nodes = insert_in p n 0 mm.nodes;
      scanned_blocks = (mm.scanned_blocks + 2 ^ 32 - 1) % 2 ^ 32;
    }

-- The node, back in its place, lies in the hole that the scan has found.
unfoldable pub evicts : Mm → ℕ → Bool
unfolding scan_relink
evicts mm n =
    let mm' = scan_relink mm n in
    ltb mm'.scan_hit_start (hole_end mm' n) && ltb (mm'.node n).start mm'.scan_hit_end

-- `drm_mm_scan_remove_block`, with its result: the node is to be evicted.
unfoldable pub scan_remove_block : Mm → ℕ → Result (Mm × Bool)
unfolding evicts
scan_remove_block mm n =
    if (mm.node n).scanned_block then ok (scan_relink mm n, evicts mm n) else bug
