-- ===== src/Lib.antt =====
-- Verification of the kernel code that the posts of this repository discuss. Each post stands in a
-- directory of its own with the source files it reads. The parts modelled here are three allocators and a
-- table of mappings, which do not call each other, and the input core with the event devices on top of it:
--
-- Slob: the SLOB allocator, ulk_slob/slob.c. A page is cut into units of two bytes; the free blocks of
--   a page are a list in address order that the free memory itself encodes (set_slob, slob_units,
--   slob_next, slob_last: Slob/Block). Slob/PageAlloc is slob_page_alloc, Slob/PageFree the reinsertion
--   in slob_free, Slob/State the page descriptors, the three lists of partially free pages, slob_alloc
--   and slob_free, and Slob/Front kmalloc, kfree, ksize and the caches. Slob/FreeList is the abstract
--   list of free blocks and its relation to memory, Slob/FirstFit the search on that list; Slob/Scan and
--   Slob/PageFree/Refine tie the two to the code; Slob/Model is the set of free units. Slob/Alloc,
--   Slob/Free and Slob/Front hold what the entry points promise.
--
-- DrmMm: the range allocator gfx_drm_mm/drm_mm.c and drm_mm.h, which gfx_gem_mm uses too. The list
--   node_list is a list of node numbers behind the head, node 0; hole_stack another one. DrmMm.antt is
--   the state and the search, DrmMm/Ops insertion, reservation, removal and initialisation, and
--   DrmMm/Scan the eviction scan. DrmMm/Layout is the invariant: the nodes lie in address order, and a
--   node is on the stack exactly if a gap follows it. DrmMm/Place, DrmMm/Search, DrmMm/Fit, DrmMm/Insert,
--   DrmMm/Reserve, DrmMm/Remove, DrmMm/Swap, DrmMm/Replace and DrmMm/RoundTrip hold what the operations
--   keep and promise.
--
-- Pkmap: the permanent kernel mappings, ulk_pkmap/highmem.c. A slot stands for its address, PKMAP_ADDR
--   of it. Pkmap.antt is the state and the operations, Pkmap/Slots the invariant and the flush,
--   Pkmap/Search the search for a slot in map_new_virtual, Pkmap/Map what these steps keep, and
--   Pkmap/High what kmap_high and kunmap_high promise. Pkmap/Address is the hash table behind
--   page_address, whose lists Pkmap/Address/Buckets is about; Pkmap/Address/Refine ties it to the
--   function that stands for it in Pkmap.antt. Pkmap/ToPage is kmap_to_page.
--
-- Input: the input core, input_subsystem/input.c. Input.antt is the device (struct input_dev, with its
--   handles and their open counts) and input_pass_event; Input/Defuzz is input_defuzz_abs_event,
--   Input/Events input_handle_event with the functions for each type of event, input_event,
--   input_inject_event and the auto-repeat timer; Input/Handles is grabbing, opening, closing, flushing
--   and disconnecting. The calls of handlers and of the driver are a list that the functions add to.
--   Input/Events/Quiet and Keys are what events do, Input/Handles/Count and Close the counts of openings,
--   Input/Handles/Releases, End and Reopen the end of a device.
--
-- Evdev: the event devices, input_subsystem/evdev.c, which call Input through one handle each.
--   Evdev/Ring is struct evdev_client with evdev_pass_event, evdev_fetch_next_event and the suspend
--   block; Evdev/Read is evdev_read and evdev_poll, Evdev/Write evdev_write; Evdev/Device is struct evdev
--   with delivery to the clients, grabbing, opening, releasing and the clean-up. Evdev/Queue is the queue
--   that a ring stands for, and Evdev/Queue/Refine the relation of the two, Evdev/Queue/Run a client's
--   steps in any order; Evdev/Read/Rounds and Loop are about reading, Evdev/Device/Deliver about who gets
--   an event, Evdev/Device/Size about the ring's size, and Evdev/Device/Attached about the clients, the
--   handle and the input device.
--
-- Buddy: the zone page allocator, ulk_pf/page_alloc.c. Pages are frame numbers. Buddy.antt is the zone
--   with __free_one_page (free_one), free_one_page, expand and __rmqueue_smallest; Buddy/Fallback is
--   move_freepages, change_pageblock_range, __rmqueue_fallback and __rmqueue; Buddy/Bulk is rmqueue_bulk,
--   and Buddy/Pcp free_pcppages_bulk with the lists of a struct per_cpu_pages; Buddy/Pcp/Cpu is
--   free_hot_cold_page and the draining of these lists, Buddy/Watermark __zone_watermark_ok. Buddy/Pair
--   is the arithmetic of buddies. Buddy/Valid is the invariant of a zone and what a block taken from a
--   list (Drop), put on one (Add), joined or split (Halves) does to it; Buddy/Free, Buddy/Alloc,
--   Buddy/Cycle and the modules below Buddy/Fallback, Buddy/Bulk, Buddy/Pcp and Buddy/Watermark hold what
--   the functions promise.
--
-- Prelude holds what they share: tests on numbers, lists, integers.
--
-- Bounds and fuel. PAGE_SIZE is 4096, slobidx_t is a 16-bit integer, and unsigned long has 64 bits with
-- its wrap-around written out. The loops over the blocks of a page run on fuel of one round more than a
-- page has units, since every block of a free list is at least one unit of its page; the theorems show
-- that the loops end within it. The search of map_new_virtual has two rounds for each slot, since the
-- count starts anew only where the search passes the start of the table. The loops over lists of pages and
-- of holes are recursions on those lists.
--
-- evdev_read runs on fuel of one round more than events are ready, evdev_write on one round for each
-- event. A ring's size is a power of two, used through what follows from that: it divides 2 ^ 32. The
-- arithmetic on the values of axes wraps around as that of an int does; evdev->open and the open counts of
-- handles are integers, users is an unsigned int, and pkmap_count is held by the 32 bits of an int. A mark
-- of a zone is an unsigned long that __zone_watermark_ok converts to a long.
--
-- The loop of __free_one_page has a round for each order up to the largest, and so have the searches of
-- __rmqueue. move_freepages has a round for each page of its range. free_pcppages_bulk has a round for
-- each page to free, since each round frees one, and its search for a list with pages three. Counts of
-- pages do not wrap around, since none is more than the number of frames; MAX_ORDER is 11.
--
-- Parameters. ALIGN, get_order, the alignments of the architecture, the page allocator's answers and the
-- hook color_adjust are arguments, with what the code relies on as named hypotheses.
--
-- The filters of the input handlers, input_is_mt_value, hash_ptr, PageHighMem, virt_to_page, PKMAP_BASE,
-- roundup_pow_of_two, the clocks, which handlers have a start function, what the driver's open and flush
-- return, signals at the mutexes and the user's buffer are arguments too.
--
-- In Buddy, pfn_valid_within, page_zone_id, zone_spans_pfn, pageblock_order and
-- page_group_by_mobility_disabled are arguments without hypotheses, and so is whether
-- destroy_compound_page or free_pages_prepare refuses a page, the marks and lowmem_reserve. A count of
-- per-cpu pages is a natural number, since a batch is not more than high.
--
-- Not modelled. Tracing, kmemleak, lockdep, reclaim accounting and page_mapcount_reset leave the
-- allocators' state alone. The spin lock of slob.c makes each critical section one step. A BUG_ON is an
-- outcome of its own. Where kmap_high sleeps its step ends; going on after the wake-up is a new call. In
-- Pkmap.antt the hash table behind page_address is the function that it looks up. The check of
-- drm_mm_hole_node_start that a hole follows is not run for the entries of hole_stack, which all have the
-- flag in a valid allocator. Whether list_del has left an entry of hole_stack deleted is an argument of
-- replace_node, since no other function of drm_mm.c reads such an entry. The debug tables of drm_mm.c are
-- left out. Each critical section of the input core and of a client is one step, and the waits of RCU are
-- not seen. Of evdev.c most ioctls and the registration, and of input.c the key maps, the matching and
-- registration of devices and handlers, and /proc and sysfs are left out. Of page_alloc.c the rest of
-- buffered_rmqueue, the zone lists, the test with the counters of all cpus and the initialisation are left
-- out; guard pages, CMA and isolated pageblocks are configured away. A migrate type of a pageblock is kept
-- by the number of the pageblock, and not as bits of the zone's bitmap.
pub mod Prelude
pub mod Buddy
pub mod DrmMm
pub mod Evdev
pub mod Input
pub mod Pkmap
pub mod Slob
