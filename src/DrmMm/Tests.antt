-- ===== src/DrmMm/Tests.antt =====
-- The allocator of drm_mm.c on a range of one page, from 0x1000 to 0x2000.
use mathlib.Core.Path.{subst}
use my_posts.Prelude.{◌+◌, ◌<◌, ◌≡◌, refl, sym, inl, Bool, true, false, none, some, [], arith}
use my_posts.DrmMm.{Node, Mm, ok, hole_start, hole_end, set_node, adjusted, clip, insert_in, word}
use my_posts.DrmMm.Ops.{init, put_node, insert_node, reserve_node, remove_node}
use my_posts.DrmMm.Scan.{scan_add_block, scan_remove_block}
use my_posts.DrmMm.Search.{seen}
use my_posts.DrmMm.Layout.{IsValid}
use my_posts.DrmMm.Insert.{put_node-IsValid, IsNarrowing, NoWrap, Inserted, insert_node-Inserted}
use my_posts.DrmMm.Reserve.{Reserved, reserve_node-Reserved}
use my_posts.DrmMm.Replace.{IsReplaced, replace_node, replace_node-IsReplaced}
use my_posts.DrmMm.Remove.{IsRemoved, remove_node-IsRemoved}
use my_posts.DrmMm.RoundTrip.{init-IsValid, IsRelinked, scan-IsRelinked}

abbrev blank : Node
blank = record {
  start = 0;
  size = 0;
  color = 0;
  hole_follows = false;
  allocated = false;
  scanned_block = false;
  scanned_prev_free = false;
  scanned_next_free = false;
  scanned_preceeds_hole = false;
  scan_prev = 0;
  scan_next = none;
}

-- Node 2 asks for the place from 0x1400 to 0x1500.
abbrev raw : Mm
raw = record {
  node = set_node (λ _. blank) 2 (record blank { start = 5120; size = 256 });
  nodes = [];
  holes = [];
  scan_check_range = false;
  scan_alignment = 0;
  scan_color = 0;
  scan_size = 0;
  scan_hit_start = 0;
  scan_hit_end = 0;
  scanned_blocks = 0;
  scan_start = 0;
  scan_end = 0;
  prev_scanned_node = none;
}

abbrev empty_pool : Mm
unfolding init
empty_pool = init raw 4096 4096

-- Node 1 stands at 0x1000.
abbrev pool : Mm
unfolding put_node
pool = put_node empty_pool 0 1 4096 256 0 4096 8192

mm-IsValid : IsValid (init raw 4096 4096) 4096 8192
mm-IsValid = init-IsValid raw 4096 4096 (omega arith) (omega arith)

no_hook-IsNarrowing : IsNarrowing none
unfolding adjusted
no_hook-IsNarrowing mm h color (a, b) = (omega arith, omega arith)

empty_pool-NoWrap : NoWrap none empty_pool 4096 8192 1 256 64 0 none
unfolding empty_pool init adjusted clip hole_start hole_end
empty_pool-NoWrap h i =
    let e : h ≡ 0 = ground arith in
    subst (λ z. (seen none empty_pool 256 64 0 none z).0 + 64 + 256 < word) (sym e) (omega arith)

insert_node-Inserted_example :
    Inserted none empty_pool 4096 8192 1 256 64 0 none false
      (insert_node none empty_pool 1 256 64 0 none false)
unfolding empty_pool init
insert_node-Inserted_example =
    insert_node-Inserted none empty_pool 4096 8192 1 256 64 0 none false mm-IsValid
      no_hook-IsNarrowing empty_pool-NoWrap (omega arith) refl refl refl

reserve_node-Reserved_example :
    Reserved empty_pool 4096 8192 2 empty_pool.holes (reserve_node empty_pool 2)
unfolding empty_pool init
reserve_node-Reserved_example =
    reserve_node-Reserved empty_pool 4096 8192 2 mm-IsValid (omega arith) refl (omega arith)

pool-IsValid : IsValid pool 4096 8192
unfolding empty_pool init hole_start hole_end pool put_node
pool-IsValid =
    put_node-IsValid empty_pool 4096 8192 0 1 4096 256 0 mm-IsValid refl refl refl (omega arith)
      (omega arith) (omega arith)

remove_node-IsRemoved_example :
    (mm' : Mm) × (remove_node pool 1 ≡ ok mm') × IsRemoved pool mm' 4096 8192 1
unfolding pool insert_in empty_pool
remove_node-IsRemoved_example =
    remove_node-IsRemoved pool 4096 8192 1 pool-IsValid refl refl refl refl refl

scan-IsRelinked_example :
    (mm1 : Mm) × (mm2 : Mm) × (hit : Bool) × (evict : Bool) × (scan_add_block none pool 1
      ≡ ok (mm1, hit))
    × (scan_remove_block mm1 1 ≡ ok (mm2, evict))
    × IsRelinked pool mm2
unfolding pool insert_in empty_pool
scan-IsRelinked_example = scan-IsRelinked pool 4096 8192 1 pool-IsValid refl none refl (omega arith)

-- Node 3 takes the place of node 1.
replace_node-IsReplaced_example :
    (mm' : Mm) × (replace_node true pool 1 3 ≡ some mm') × IsReplaced pool 4096 8192 1 3 mm'
unfolding pool insert_in empty_pool
replace_node-IsReplaced_example =
    replace_node-IsReplaced pool 4096 8192 1 3 pool-IsValid true (inl refl) refl refl
