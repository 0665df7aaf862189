-- ===== src/LogRetention/Steps.antt =====
-- The loops that unlink log files, and what a step leaves where it has raised.
use xian_abci.Prelude.{
  ℕ, ◌+◌, ◌-◌, ◌≤◌, ◌≡◌, refl, ◌||◌, Bool, true, false, Bool-cases, inl, inr, List, [], ◌∷◌, ◌++◌,
  arith, leb, some, if◌then◌else◌,
}
use xian_abci.Prelude.Int.{ℤ, ltb_ℤ}
use xian_abci.Result.{ok, err}
use xian_abci.LogRetention.{
  LogFile, Active, missing, symlink, irregular, regular, Faults, BoundedLogSink, insert_file,
  sort_files, total_size, Step, and_then, stat_size, is_symlink, is_irregular, unlink_expired, trim,
}

total_size-insert_file :
    (f : LogFile) (fs : List LogFile) → total_size (insert_file f fs) ≡ f.size + total_size fs
unfolding insert_file
total_size-insert_file f [] = refl
total_size-insert_file f (g ∷ gs) = ground (arith, total_size-insert_file f gs)

pub total_size-sort_files : (fs : List LogFile) → total_size (sort_files fs) ≡ total_size fs
unfolding sort_files
total_size-sort_files [] = refl
total_size-sort_files (f ∷ fs) =
    omega (arith, total_size-insert_file f (sort_files fs), total_size-sort_files fs)

pub total_size-append :
    (fs gs : List LogFile) → total_size (fs ++ gs) ≡ total_size fs + total_size gs
total_size-append [] gs = omega arith
total_size-append (f ∷ fs) gs = omega (arith, total_size-append fs gs)

-- The bytes of the active segment.
abbrev pub segment_size : Active → ℕ
segment_size (regular f) = f.size
segment_size _ = 0

pub segment-le-stat : (active : Active) → segment_size active ≤ stat_size active
segment-le-stat missing = omega arith
segment-le-stat symlink = omega arith
segment-le-stat (irregular n) = omega arith
segment-le-stat (regular f) = omega arith

-- The bytes of the segment and the archives together.
abbrev pub held : BoundedLogSink → ℕ
held sink = segment_size sink.active + total_size sink.archives

-- What a step has left where it has returned, and where it has raised.
abbrev pub Ends : {A : Type 0} → (A → Type 0) → (A → Type 0) → Step A → Type 0
Ends P Q (err e, state) = Q state
Ends P Q (ok _, state) = P state

pub and_then-Ends :
    {A : Type 0} (P R Q : A → Type 0) (r : Step A) (next : A → Step A)
    → Ends P Q r
    → ((state : A) → P state → Ends R Q (next state))
    → Ends R Q (and_then r next)
and_then-Ends P R Q (err e, state) next h n = h
and_then-Ends P R Q (ok _, state) next h n = n state h

pub Ends-if :
    {A : Type 0} (P Q : A → Type 0) (b : Bool) (r s : Step A)
    → (b ≡ true → Ends P Q r)
    → (b ≡ false → Ends P Q s)
    → Ends P Q (if b then r else s)
Ends-if P Q true r s h k = h refl
Ends-if P Q false r s h k = k refl

pub right_false : (a b : Bool) → (a || b) ≡ false → b ≡ false
right_false true b h = cc
right_false false b h = h

module _ (faults : Faults) where
  -- A reason for an error: an operation that fails, or an entry at the active path that is refused.
  pub data Cause (active : Active) : Type 0 where
    at_lock : faults.lock_fails ≡ true → Cause active
    at_stat : faults.stat_fails ≡ true → Cause active
    at_rename : faults.rename_fails ≡ true → Cause active
    at_list : faults.list_fails ≡ true → Cause active
    at_file : (f : LogFile) → faults.file_stat_fails f ≡ true → Cause active
    at_unlink : (f : LogFile) → faults.unlink_fails f ≡ true → Cause active
    at_open : faults.open_fails ≡ true → Cause active
    at_write : (n : ℕ) → faults.failed_write ≡ some n → Cause active
    at_unlock : faults.unlock_fails ≡ true → Cause active
    at_symlink : is_symlink active ≡ true → Cause active
    at_irregular : is_irregular active ≡ true → Cause active

  module _ (active : Active) where
    -- Files that have shrunk to a bound.
    abbrev pub Shrunk : ℕ → Step (List LogFile) → Type 0
    Shrunk n = Ends (λ kept. total_size kept ≤ n) (λ kept. (total_size kept ≤ n) × Cause active)

    Shrunk-cons :
        (f : LogFile) (n : ℕ) (r : Step (List LogFile))
        → Shrunk n r
        → Shrunk (f.size + n) (r.0, f ∷ r.1)
    Shrunk-cons f n (err e, fs) h = (omega (arith, h.0), h.1)
    Shrunk-cons f n (ok _, fs) h = omega (arith, h)

    Shrunk-skip : (m n : ℕ) (r : Step (List LogFile)) → Shrunk n r → Shrunk (m + n) (r.0, r.1)
    Shrunk-skip m n (err e, fs) h = (omega (arith, h.0), h.1)
    Shrunk-skip m n (ok _, fs) h = omega (arith, h)

    pub unlink_expired-Shrunk :
        (cutoff : ℤ) (fs : List LogFile) → Shrunk (total_size fs) (unlink_expired faults cutoff fs)
    unfolding unlink_expired
    unlink_expired-Shrunk cutoff [] = omega arith
    unlink_expired-Shrunk cutoff (f ∷ fs) =
        let rest = unlink_expired-Shrunk cutoff fs in
        elim (Bool-cases (faults.file_stat_fails f)) [
          | inl e ↦ rw e (omega arith, at_file f e)
          | inr e ↦ rw e (elim (Bool-cases (ltb_ℤ f.mtime cutoff)) [
            | inr young ↦ rw young (Shrunk-cons f (total_size fs) _ rest)
            | inl old ↦ rw old (elim (Bool-cases (faults.unlink_fails f)) [
              | inl g ↦ rw g (omega arith, at_unlink f g)
              | inr g ↦ rw g (Shrunk-skip f.size (total_size fs) _ rest)
            ])
          ])
        ]

    -- Within the budget where it has returned.
    abbrev pub Trimmed : ℕ → ℕ → Step (List LogFile) → Type 0
    Trimmed budget n =
        Ends (λ kept. (total_size kept ≤ budget) × (total_size kept ≤ n))
          (λ kept. (total_size kept ≤ n) × Cause active)

    pub Trimmed-skip :
        (budget m n : ℕ) (r : Step (List LogFile)) → m ≤ n → Trimmed budget m r → Trimmed budget n r
    Trimmed-skip budget m n (err e, fs) le h = (omega (arith, le, h.0), h.1)
    Trimmed-skip budget m n (ok _, fs) le h = (h.0, omega (arith, le, h.1))

    pub trim-Trimmed :
        (budget size : ℕ) (fs : List LogFile)
        → size ≡ total_size fs
        → Trimmed budget (total_size fs) (trim faults budget size fs)
    unfolding trim
    trim-Trimmed budget size [] h = (omega arith, omega arith)
    trim-Trimmed budget size (f ∷ fs) h = elim (Bool-cases (leb size budget)) [
      | inl e ↦ rw e (ground (arith, h, e), omega arith)
      | inr e ↦ rw e (elim (Bool-cases (faults.unlink_fails f)) [
        | inl g ↦ rw g (omega arith, at_unlink f g)
        | inr g ↦ rw g (
            Trimmed-skip budget (total_size fs) (f.size + total_size fs) _ (omega arith)
              (trim-Trimmed budget (size - f.size) fs (omega (arith, h))))
      ])
    ]
