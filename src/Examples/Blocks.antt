-- ===== src/Examples/Blocks.antt =====
-- The allocator and the chase of a chain of pairs.
use littlefs2_pure.Prelude.{
  ℕ, ◌+◌, ◌*◌, ◌%◌, ◌≤◌, ◌≡◌, refl, sym, subst, ap, arith, Bool, true, some, none, [], ◌∷◌,
  replicate, set, ◌==◌, ==_iff, Result, ok, err, corrupt, Error, List,
}
use littlefs2_pure.Block.{BlockPair}
use littlefs2_pure.Storage.{Storage}
use littlefs2_pure.Alloc.{Bitmap, empty, is_set}
use littlefs2_pure.Alloc.Laws.{IsBitmap}
use littlefs2_pure.Alloc.Granted.{Covers, CacheGranted, ScanCovers}
use littlefs2_pure.Alloc.Cached.{take_cached, walk_excluded}
use littlefs2_pure.Alloc.Cache
use littlefs2_pure.Alloc.Scan.{search_queue, max_queued_pairs}
use littlefs2_pure.Alloc.Single.{visit_raw}
use littlefs2_pure.Alloc.Bounded
use littlefs2_pure.Chase.{start_at}
use littlefs2_pure.Chase.Cycle
use littlefs2_pure.Chase.Forest.{collect_live_tree_pairs}
use littlefs2_pure.Chase.Tree
use littlefs2_pure.Chase.Tree.{Collects}
use littlefs2_pure.Chase.Cycle.{follow, Repeats}

-- A device of sixteen blocks on which every read succeeds with zeros.
abbrev zero_device : Storage
zero_device = record {
  read_size = 4;
  block_size = 128;
  block_count = 16;
  read = λ block offset n. some (replicate n 0);
}

-- Block 3 is live, and the bitmap has it.
abbrev live_three : ℕ → Bool
live_three c = c == 3

abbrev three : Bitmap
three = record { bits = set (replicate 512 0) 0 8 }

three-IsBitmap : IsBitmap three
three-IsBitmap = record { full = refl }

has_three : is_set three 3 ≡ true
unfolding is_set
has_three = refl

three-Covers : Covers live_three three
three-Covers c h =
    let at : 3 ≡ c = sym ((==_iff c 3).0 h) in subst (λ n. is_set three n ≡ true) at has_three

scanned-ScanCovers : ScanCovers live_three (walk_excluded zero_device none three)
unfolding walk_excluded
scanned-ScanCovers = (three-IsBitmap, three-Covers)

take_cached-CacheGranted_example :
    CacheGranted live_three
      (5 ∷ [])
      2
      16
      (take_cached zero_device (ok three) (some three) (5 ∷ []) none 2)
take_cached-CacheGranted_example =
    Cache.take_cached-CacheGranted live_three zero_device (5 ∷ []) 2 (ok three) (some three) none
      (three-IsBitmap, three-Covers) scanned-ScanCovers

search_queue_ends_example :
    (r : Result Bitmap) × (search_queue
        (visit_raw zero_device)
        max_queued_pairs
        (record { a = 0; b = 1 } ∷ [])
        1
        empty
      ≡ some r)
search_queue_ends_example =
    Bounded.search_queue_ends (visit_raw zero_device) (record { a = 0; b = 1 }) empty

-- Three pairs in a ring.
abbrev ring : ℕ → BlockPair
ring i = record { a = 2 * (i % 3); b = 2 * (i % 3) + 1 }

ring_again : (i : ℕ) → 0 ≤ i → ring (i + 3) ≡ ring i
ring_again i h = ap (λ (n : ℕ). record { a = 2 * n; b = 2 * n + 1 }) (omega arith)

follow_catches_example : follow ring 9 0 (start_at (ring 0)) ≡ err corrupt
follow_catches_example =
    Cycle.follow_catches ring 0 3 (omega arith) (omega arith) ring_again 9 (omega arith)

ring_alarm : follow ring 6 0 (start_at (ring 0)) ≡ err corrupt
unfolding follow start_at
ring_alarm = refl

follow_alarm_example : (◌≡◌ {A = Error} corrupt corrupt) × Repeats ring 6
follow_alarm_example = Cycle.follow_alarm ring 6 corrupt ring_alarm

collect_live_tree_pairs-Collects_example :
    (r : Result (List BlockPair)) × (collect_live_tree_pairs zero_device (record { a = 0; b = 1 })
      ≡ some r)
    × Collects zero_device (record { a = 0; b = 1 }) r
collect_live_tree_pairs-Collects_example =
    Tree.collect_live_tree_pairs-Collects zero_device (record { a = 0; b = 1 })
