-- ===== src/File/Open.antt =====
-- `Fs::open` of src/file.rs.
use littlefs2_pure.Prelude.{
  ℕ, ◌≡◌, refl, inl, inr, Bool-cases, arith, Bool, false, not, ◌&&◌, ◌||◌, Option, none, some, List,
  [], ltb, ◌==◌, if◌then◌else◌, length, Result, ok, err, ◌>>=◌, invalid_path, geometry_mismatch,
  out_of_range, corrupt, not_found, already_exists,
}
use littlefs2_pure.Prelude.Words.{u32}
use littlefs2_pure.Block.{BlockAddress, BlockPair, address_none}
use littlefs2_pure.Tag.Kind.{TagType, inline_struct, ctz_struct}
use littlefs2_pure.Ctz.{CtzStruct, from_bytes}
use littlefs2_pure.Dir.{Resolved, lookup_checked}
use littlefs2_pure.FilePath.{FilePath}
use littlefs2_pure.Chase.Forest.{fetch_pair}
use littlefs2_pure.Resolve.{
  Run, stuck, panics, returns, and_then, ChainSeek, found, absent, is_directory, resolve_parent,
  seek_entry_in_chain,
}
use littlefs2_pure.File.Options.{OpenOptions, writable}
use littlefs2_pure.File.{File, FsOps, bad_buffers}

-- `enum Existing`
pub data Existing : Type 0 where
  missing : Existing
  inline : ℕ → ℕ → Existing
  ctz : ℕ → CtzStruct → Existing

unfoldable pub existing_arm : ℕ → TagType → List ℕ → Result Existing
unfolding from_bytes
existing_arm id inline_struct body = ok (inline id (length body))
existing_arm id ctz_struct body = from_bytes body >>= λ c. ok (ctz id c)
existing_arm id t body = err corrupt

unfoldable pub classify : Option Resolved → Result Existing
unfolding existing_arm
classify none = ok missing
classify (some r) =
    if is_directory r.entry.kind
    then err already_exists
    else existing_arm r.entry.id r.struct_type r.struct_body

-- The pair that the search ended at.
unfoldable pub owner_of : ChainSeek → BlockPair
owner_of (found p id kind) = p
owner_of (absent p count) = p

-- The directory, the name, the owner and what stands there.
pub record Target : Type 0 where
  pub directory : BlockPair
  pub name : List ℕ
  pub owner : BlockPair
  pub existing : Existing

-- Where a handle begins: the entry's pair and id, and the chain.
pub record Origin : Type 0 where
  pub pair : BlockPair
  pub id : ℕ
  pub head : BlockAddress
  pub len : ℕ

unfoldable pub finish : OpenOptions → Origin → File
finish options o =
    let head = if options.truncate then address_none else o.head in
    let size = if options.truncate then 0 else o.len in
    record {
      parent = o.pair;
      id = o.id;
      cursor = if options.append then size else 0;
      head_block = head;
      size = size;
      dirty = options.truncate;
      options = options;
    }

unfoldable pub finish_run : OpenOptions → Run Origin → Run File
unfolding finish
finish_run options r = and_then r λ o. returns (ok (finish options o))

-- The place where the search finds a new entry.
unfoldable pub created : ChainSeek → Run Origin
created (found p id kind) =
    returns (ok (record { pair = p; id = id; head = address_none; len = 0 }))
created (absent p count) = returns (err corrupt)

-- The mode flags that `open` refuses.
unfoldable pub bad_modes : OpenOptions → Bool
unfolding writable
bad_modes o = (not o.read && not (writable o)) || ((o.create || o.truncate) && not (writable o))

no_create : (o : OpenOptions) → writable o ≡ false → bad_modes o ≡ false → o.create ≡ false
unfolding bad_modes writable
no_create o h k = ground arith

module _ {σ : Type 0} (ops : FsOps σ) where
  open ops use {storage, root, write_inline_to_pair}

  -- The end of `find_target`: the entry in the pair that the search names.
  unfoldable pub target_at : σ → BlockPair → List ℕ → ChainSeek → Result Target
  unfolding fetch_pair lookup_checked owner_of classify
  target_at st directory name v = do
    pair ← fetch_pair (storage st) (owner_of v)
    hit ← lookup_checked pair name
    existing ← classify hit
    ok (record { directory = directory; name = name; owner = owner_of v; existing = existing })

  -- The reads of `open`.
  unfoldable pub find_target : FilePath → ℕ → ℕ → σ → Run Target
  unfolding resolve_parent seek_entry_in_chain target_at
  find_target path len_a len_b st =
      and_then (resolve_parent (storage st) (root st) path len_a len_b) λ p.
        if length p.1 == 0 || ltb 0x3ff (length p.1)
        then returns (err invalid_path)
        else and_then (seek_entry_in_chain (storage st) p.0 p.1)
            λ v. returns (target_at st p.0 p.1 v)

  unfoldable pub create_empty_entry_for_file : BlockPair → List ℕ → σ → Run Origin × σ
  unfolding seek_entry_in_chain created
  create_empty_entry_for_file directory name st =
      let out = write_inline_to_pair directory name [] st in
      elim out.0 [
        | err e ↦ (returns (err e), out.1)
        | ok u ↦ (and_then (seek_entry_in_chain (storage out.1) directory name) created, out.1)
      ]

  -- The match on what exists.
  unfoldable pub begin_at : OpenOptions → Target → Existing → σ → Run Origin × σ
  unfolding create_empty_entry_for_file
  begin_at options t missing st =
      if options.create
      then create_empty_entry_for_file t.directory t.name st
      else (returns (err not_found), st)
  begin_at options t (inline id size) st =
      if options.truncate
      then (
        returns (ok (record { pair = t.owner; id = id; head = address_none; len = u32 size })),
        st,
      )
      else (returns (err out_of_range), st)
  begin_at options t (ctz id c) st =
      (returns (ok (record { pair = t.owner; id = id; head = c.head_block; len = c.size })), st)

  unfoldable pub open_target : OpenOptions → Run Target → σ → Run File × σ
  unfolding begin_at finish_run
  open_target options stuck st = (stuck, st)
  open_target options panics st = (panics, st)
  open_target options (returns (err e)) st = (returns (err e), st)
  open_target options (returns (ok t)) st =
      let out = begin_at options t t.existing st in (finish_run options out.0, out.1)

  -- `Fs::open`
  unfoldable pub open_file : FilePath → OpenOptions → ℕ → ℕ → σ → Run File × σ
  unfolding bad_buffers bad_modes find_target open_target
  open_file path options len_a len_b st =
      if bad_buffers ops len_a len_b st
      then (returns (err geometry_mismatch), st)
      else if bad_modes options
      then (returns (err invalid_path), st)
      else open_target options (find_target path len_a len_b st) st

  begin_at_kept :
      (options : OpenOptions) (t : Target) (e : Existing) (st : σ)
      → options.create ≡ false
      → (begin_at options t e st).1 ≡ st
  unfolding begin_at
  begin_at_kept options t missing st h = rw h refl
  begin_at_kept options t (inline id size) st h = elim (Bool-cases options.truncate) [
    | inl on ↦ rw on refl
    | inr off ↦ rw off refl
  ]
  begin_at_kept options t (ctz id c) st h = refl

  open_target_kept :
      (options : OpenOptions) (t : Run Target) (st : σ)
      → options.create ≡ false
      → (open_target options t st).1 ≡ st
  unfolding open_target
  open_target_kept options stuck st h = refl
  open_target_kept options panics st h = refl
  open_target_kept options (returns (err e)) st h = refl
  open_target_kept options (returns (ok t)) st h = begin_at_kept options t t.existing st h

  -- An open without write access leaves the state of the file system as it is, whatever the other
  -- flags and whatever the outcome.
  pub open_file_read_only :
      (path : FilePath) (options : OpenOptions) (len_a len_b : ℕ) (st : σ)
      → writable options ≡ false
      → (open_file path options len_a len_b st).1 ≡ st
  unfolding open_file
  open_file_read_only path options len_a len_b st h =
      elim (Bool-cases (bad_buffers ops len_a len_b st)) [
        | inl bad ↦ rw bad refl
        | inr good ↦ elim (Bool-cases (bad_modes options)) [
          | inl refused ↦ rw (good, refused) refl
          | inr allowed ↦
              rw (good, allowed) (open_target_kept options _ st (no_create options h allowed))
        ]
      ]
