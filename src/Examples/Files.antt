-- ===== src/Examples/Files.antt =====
-- Devices, chains and directories.
use littlefs2_pure.Prelude.{
  ℕ, zero, suc, ◌+◌, ◌-◌, ◌*◌, ◌^◌, ◌≤◌, ◌<◌, ◌≡◌, refl, arith, some, List, [], ◌∷◌, replicate,
  ◌==◌, if◌then◌else◌, ok, true,
}
use littlefs2_pure.Prelude.Bytes.{slice, le32_at, to_le32}
use littlefs2_pure.Prelude.Counts.{trailing_zeros, count_ones, low_zeros, ones}
use littlefs2_pure.Storage.{Storage, read_range}
use littlefs2_pure.Storage.Range
use littlefs2_pure.Storage.Range.{Holds}
use littlefs2_pure.Ctz.{block_index_at_offset, seek_block_buffered}
use littlefs2_pure.Ctz.Index
use littlefs2_pure.Ctz.Index.{IsPlace}
use littlefs2_pure.Ctz.Seek
use littlefs2_pure.Ctz.Seek.{IsChain}
use littlefs2_pure.Tag
use littlefs2_pure.Tag.Kind.{create, regular_file}
use littlefs2_pure.Dir.{live_slots, lookup_slots, Roster, create_slot, delete_slot, splice_step}
use littlefs2_pure.Dir.Refine
use littlefs2_pure.Dir.Refine.{IsRoster, live, map_result, insert_checked, remove_checked}
use littlefs2_pure.Dir.Invariant
use littlefs2_pure.Dir.Agree
use littlefs2_pure.Dir.Agree.{live_view, lookup_view}
use littlefs2_pure.Dir.Natural.{map_roster}
use littlefs2_pure.Meta.Iter.{TagEntry}
use littlefs2_pure.Dir.Invariant.{LeavesRoster}

block_index_at_offset-content_before_example :
    IsPlace 128 1000 (block_index_at_offset 1000 128).0 (block_index_at_offset 1000 128).1
block_index_at_offset-content_before_example =
    Index.block_index_at_offset-content_before 1000 128 (omega arith) (omega arith) (omega arith)

eighth_block : block_index_at_offset 1000 128 ≡ (8, 36)
unfolding block_index_at_offset count_ones ones
eighth_block = refl

-- A device of one block of three units, whose reads return the block's bytes.
abbrev twelve_bytes : List ℕ
twelve_bytes = 0 ∷ 1 ∷ 2 ∷ 3 ∷ 4 ∷ 5 ∷ 6 ∷ 7 ∷ 8 ∷ 9 ∷ 10 ∷ 11 ∷ []

abbrev small_device : Storage
small_device = record {
  read_size = 4;
  block_size = 12;
  block_count = 1;
  read = λ block off n. some (slice twelve_bytes off n);
}

small_device-Holds : Holds small_device 0 twelve_bytes
small_device-Holds = record {
  unit_pos = omega arith;
  units = 3;
  whole_units = refl;
  full = refl;
  on_grid = λ k n l. refl;
}

read_range-eq_example : read_range small_device 0 3 7 4 ≡ ok (slice twelve_bytes 3 7)
read_range-eq_example =
    Range.read_range-eq small_device 0 twelve_bytes small_device-Holds 3 7 4 (omega arith)
      (omega arith)

-- A chain of three blocks at the addresses 5, 6 and 7.
abbrev chain_device : Storage
chain_device = record {
  read_size = 4;
  block_size = 128;
  block_count = 16;
  read = λ block off n.
      some (if block == 7 then (if off == 0 then to_le32 6 else to_le32 5) else to_le32 5);
}

chain_pointer :
    (i k : ℕ)
    → 0 < i
    → i ≤ 2
    → k ≤ trailing_zeros i
    → (bytes : List ℕ) × (read_range chain_device (i + 5) (4 * k) 4 4 ≡ ok bytes)
      × (le32_at bytes 0 ≡ (i - 2 ^ k) + 5)
unfolding trailing_zeros low_zeros read_range le32_at to_le32
chain_pointer zero k p l q = absurd (omega arith)
chain_pointer (suc zero) zero p l q = (to_le32 5, refl, refl)
chain_pointer (suc zero) (suc k) p l q = absurd (omega arith)
chain_pointer (suc (suc zero)) zero p l q = (to_le32 6, refl, refl)
chain_pointer (suc (suc zero)) (suc zero) p l q = (to_le32 5, refl, refl)
chain_pointer (suc (suc zero)) (suc (suc k)) p l q = absurd (omega arith)
chain_pointer (suc (suc (suc i))) k p l q = absurd (omega arith)

chain_device-IsChain : IsChain chain_device (λ i. i + 5) 2 4
chain_device-IsChain = record { on_device = λ i l. omega arith; pointer = chain_pointer }

seek_block_buffered-eq_example : seek_block_buffered chain_device 7 2 0 4 ≡ ok 5
seek_block_buffered-eq_example =
    Seek.seek_block_buffered-eq chain_device (λ i. i + 5) 2 4 chain_device-IsChain 2 0 (omega arith)
      (omega arith)

-- An array with two entries, marked 1 and 2.
abbrev two_entries : Roster ℕ
two_entries = record { slots = 1 ∷ 2 ∷ replicate 254 0; count = 2 }

two_entries-IsRoster : IsRoster two_entries
two_entries-IsRoster = record { full = refl; within = omega arith }

create_slot-live_example :
    map_result (λ p. live p.1) (create_slot 0 1 two_entries) ≡ insert_checked 0 1 (1 ∷ 2 ∷ [])
create_slot-live_example = Refine.create_slot-live 0 1 two_entries two_entries-IsRoster

delete_slot-live_example :
    map_result (λ p. live p.1) (delete_slot 0 0 two_entries) ≡ remove_checked 0 (1 ∷ 2 ∷ [])
delete_slot-live_example = Refine.delete_slot-live 0 0 two_entries two_entries-IsRoster

splice_step-LeavesRoster_example :
    LeavesRoster (splice_step 0 (Tag.new true create 1 0) two_entries)
splice_step-LeavesRoster_example =
    Invariant.splice_step-LeavesRoster 0 (Tag.new true create 1 0) two_entries two_entries-IsRoster

-- A log that creates an entry and names it.
abbrev one_file : List TagEntry
one_file =
    record { tag = Tag.new true create 0 0; body = [] }
    ∷ record { tag = Tag.new true regular_file 0 1; body = 0x61 ∷ [] }
    ∷ []

live_slots-lookup_slots_example :
    map_result (map_roster live_view) (live_slots one_file)
    ≡ map_result (map_roster lookup_view) (lookup_slots one_file)
live_slots-lookup_slots_example = Agree.live_slots-lookup_slots one_file
