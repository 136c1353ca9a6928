-- ===== src/File/Session.antt =====
-- src/file.rs: calls on an open handle in any order, with whatever they return.
use littlefs2_pure.Prelude.{
  ℕ, ◌≡◌, refl, sym, ap, ◌∙◌, inl, inr, true, false, not, ◌&&◌, ◌||◌, Bool, Bool-cases, Option,
  none, some, List, [], ◌∷◌, if◌then◌else◌, length, leb, ◌==◌, Result, ok, err, invalid_path,
  geometry_mismatch, out_of_range, Error, arith,
}
use littlefs2_pure.Prelude.Words.{u32_max}
use littlefs2_pure.Prelude.Int.{pos, above, leb_ℤ}
use littlefs2_pure.Block.{address_none}
use littlefs2_pure.FilePath.{FilePath}
use littlefs2_pure.Resolve.{Run, stuck, panics, returns}
use littlefs2_pure.File.Options.{OpenOptions, writable}
use littlefs2_pure.File.{
  File, FsOps, SeekFrom, seek_target, seek, read, after_read, write, set_len, sync, bad_buffers,
}
use littlefs2_pure.File.Open.{
  Target, Origin, finish, finish_run, bad_modes, find_target, begin_at, open_target, open_file,
  open_file_read_only,
}

pub data Call : Type 0 where
  read_call : List ℕ → Call
  write_call : List ℕ → Call
  len_call : ℕ → Call
  seek_call : SeekFrom → Call
  sync_call : Call

module _ {σ : Type 0} (ops : FsOps σ) where
  -- The handle and the state behind a change of the length; `none` where it does not end.
  abbrev pub ended : Option (Result (Unit {0}) × File × σ) → Option (File × σ)
  ended none = none
  ended (some (r, f, st)) = some (f, st)

  -- The handle and the state that a call leaves, with buffers of the lengths `len_a` and `len_b`.
  unfoldable pub call : ℕ → ℕ → Call → File → σ → Option (File × σ)
  unfolding read write set_len seek sync
  call len_a len_b (read_call out) f st = some ((read ops out len_a f st).1, st)
  call len_a len_b (write_call more) f st =
      let out = write ops more len_a len_b f st in some (out.1, out.2)
  call len_a len_b (len_call m) f st = ended (set_len ops m len_a len_b f st)
  call len_a len_b (seek_call from) f st = some ((seek from f).1, st)
  call len_a len_b sync_call f st = let out = sync ops len_a len_b f st in some (out.1, out.2)

  unfoldable pub run : ℕ → ℕ → List Call → File → σ → Option (File × σ)
  unfolding call
  run len_a len_b [] f st = some (f, st)
  run len_a len_b (c ∷ rest) f st = elim (call len_a len_b c f st) [
    | none ↦ none
    | some out ↦ run len_a len_b rest out.0 out.1
  ]

  -- A handle that asks for no write, and is another but for its cursor.
  pub record IsIdle (old f : File) : Type 0 where
    pub closed : writable f.options ≡ false
    pub clean : f.dirty ≡ false
    pub same : f ≡ record old { cursor = f.cursor }

  moved : (old f : File) (c : ℕ) → IsIdle old f → IsIdle old (record f { cursor = c })
  moved old f c i = record {
    closed = i.closed;
    clean = i.clean;
    same = ap (λ (x : File). record x { cursor = c }) i.same;
  }

  either :
      {old : File} {A : Type 0} (b : Bool) (x y : A × File)
      → IsIdle old x.1
      → IsIdle old y.1
      → IsIdle old (if b then x else y).1
  either true x y i j = i
  either false x y i j = j

  after_read-IsIdle :
      {old : File} (out : List ℕ) (n : ℕ) (f : File) (r : Result (List ℕ × ℕ))
      → IsIdle old f
      → IsIdle old (after_read ops f out n r).1
  unfolding after_read
  after_read-IsIdle out n f (err e) i = i
  after_read-IsIdle {old = old} out n f (ok r) i = moved old f _ i

  read-IsIdle :
      {old : File} (out : List ℕ) (len_a : ℕ) (f : File) (st : σ)
      → IsIdle old f
      → IsIdle old (read ops out len_a f st).1
  unfolding read
  read-IsIdle out len_a f st i = either (not f.options.read) _ _ i (
      either (not (len_a == (ops.storage st).block_size)) _ _ i (
        either (length out == 0 || leb f.size f.cursor) _ _ i
          (either (f.head_block == address_none) _ _ i (after_read-IsIdle out _ f _ i))))

  seek-IsIdle :
      {old : File} (from : SeekFrom) (f : File) → IsIdle old f → IsIdle old (seek from f).1
  unfolding seek
  seek-IsIdle {old = old} from f i =
      let p = seek_target from f in
      either {A = Result ℕ} (not (leb_ℤ (pos 0) p && leb_ℤ p (pos u32_max))) (err out_of_range, f)
        (ok (above p), record f { cursor = above p }) i (moved old f (above p) i)

  call-IsIdle :
      {old : File} (len_a len_b : ℕ) (c : Call) (f : File) (st : σ)
      → IsIdle old f
      → (f' : File) × (call len_a len_b c f st ≡ some (f', st)) × IsIdle old f'
  unfolding call read write set_len seek sync
  call-IsIdle len_a len_b (read_call out) f st i =
      ((read ops out len_a f st).1, refl, read-IsIdle out len_a f st i)
  call-IsIdle len_a len_b (write_call more) f st i = (f, simp (i.closed, write) refl, i)
  call-IsIdle len_a len_b (len_call m) f st i = (f, simp (i.closed, set_len) refl, i)
  call-IsIdle len_a len_b (seek_call from) f st i = ((seek from f).1, refl, seek-IsIdle from f i)
  call-IsIdle len_a len_b sync_call f st i = (f, simp (i.clean, sync) refl, i)

  run_kept :
      {old : File} (len_a len_b : ℕ) (calls : List Call) (f : File) (st : σ)
      → IsIdle old f
      → (f' : File) × (run len_a len_b calls f st ≡ some (f', st)) × IsIdle old f'
  unfolding run
  run_kept len_a len_b [] f st i = (f, refl, i)
  run_kept len_a len_b (c ∷ rest) f st i =
      let (f1, made, i1) = call-IsIdle len_a len_b c f st i in
      let (f2, ran, i2) = run_kept len_a len_b rest f1 st i1 in (f2, rw (made, run) ran, i2)

returned : {A : Type 0} → Run A → Bool
returned (returns (ok a)) = true
returned r = false

not_failed :
    {σ : Type 0} (e : Error) (f : File) (st st' : σ)
    → ◌≡◌ {A = Run File × σ} (returns (err e), st) (returns (ok f), st')
    → ⊥
unfolding returned
not_failed {σ = σ} e f st st' h =
    let apart : false ≡ true = ap (λ (p : Run File × σ). returned p.0) h in absurd (cc)

-- A run that returns a handle has the options of the open, and they are allowed.
finish_run_ok :
    (options : OpenOptions) (r : Run Origin) (f : File)
    → finish_run options r ≡ returns (ok f)
    → (f.options ≡ options) × (f.dirty ≡ options.truncate)
unfolding finish_run finish
finish_run_ok options stuck f h = absurd (cc)
finish_run_ok options panics f h = absurd (cc)
finish_run_ok options (returns (err e)) f h = absurd (cc)
finish_run_ok options (returns (ok o)) f h =
    let same : finish options o ≡ f = cc in
    (ap (λ (x : File). x.options) (sym same), ap (λ (x : File). x.dirty) (sym same))

module _ {σ : Type 0} (ops : FsOps σ) where
  open_target_ok :
      (options : OpenOptions) (t : Run Target) (st st' : σ) (f : File)
      → open_target ops options t st ≡ (returns (ok f), st')
      → (f.options ≡ options) × (f.dirty ≡ options.truncate)
  unfolding open_target
  open_target_ok options stuck st st' f h = absurd (cc)
  open_target_ok options panics st st' f h = absurd (cc)
  open_target_ok options (returns (err e)) st st' f h = absurd (cc)
  open_target_ok options (returns (ok t)) st st' f h =
      finish_run_ok options (begin_at ops options t t.existing st).0 f (ap (λ p. p.0) h)

  no_truncate : (o : OpenOptions) → writable o ≡ false → bad_modes o ≡ false → o.truncate ≡ false
  unfolding bad_modes writable
  no_truncate o h k = ground arith

  open_file-IsIdle :
      (path : FilePath) (options : OpenOptions) (len_a len_b : ℕ) (st st' : σ) (f : File)
      → writable options ≡ false
      → open_file ops path options len_a len_b st ≡ (returns (ok f), st')
      → IsIdle ops f f
  unfolding open_file
  open_file-IsIdle path options len_a len_b st st' f h e =
      elim (Bool-cases (bad_buffers ops len_a len_b st)) [
        | inl bad ↦ absurd (not_failed geometry_mismatch f st st' (rw bad at e))
        | inr good ↦ elim (Bool-cases (bad_modes options)) [
          | inl refused ↦ absurd (not_failed invalid_path f st st' (rw (good, refused) at e))
          | inr allowed ↦
              let (same, dirty) =
                open_target_ok options (find_target ops path len_a len_b st) st st' f
                  (sym (opened good allowed) ∙ e) in
              record {
                closed = ap writable same ∙ h;
                clean = dirty ∙ no_truncate options h allowed;
                same = refl;
              }
        ]
      ]
    where
      opened :
          bad_buffers ops len_a len_b st ≡ false
          → bad_modes options ≡ false
          → open_file ops path options len_a len_b st
            ≡ open_target ops options (find_target ops path len_a len_b st) st
      opened good allowed = rw (good, allowed) refl

  -- Whatever the writers would do, a file that is opened without write access and then called in
  -- any order, reads, writes, changes of the length, seeks and syncs that fail or succeed, leaves
  -- the state of the file system as it was before the open, every call ends, and nothing of the
  -- handle but its cursor has changed.
  pub open_run_kept :
      (path : FilePath) (options : OpenOptions) (len_a len_b : ℕ) (st st' : σ) (f : File)
      (calls : List Call)
      → writable options ≡ false
      → open_file ops path options len_a len_b st ≡ (returns (ok f), st')
      → (f' : File) × (run ops len_a len_b calls f st' ≡ some (f', st))
        × (f' ≡ record f { cursor = f'.cursor })
  open_run_kept path options len_a len_b st st' f calls h e =
      let kept : st' ≡ st =
        ap (λ p. p.1) (sym e) ∙ open_file_read_only ops path options len_a len_b st h in
      let (f', ran, i) =
        run_kept ops len_a len_b calls f st'
          (open_file-IsIdle path options len_a len_b st st' f h e) in
      (f', ran ∙ ap (λ s. some (f', s)) kept, i.same)
