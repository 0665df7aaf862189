-- ===== src/LogRetention.antt =====
-- src/xian/log_retention.py: the bounded log directory, as the files that the sink owns. The lock
-- makes every method one step, and each operation on files may raise `OSError`. Times are whole
-- nanoseconds, and each reading of a clock is an argument; a new archive's name is not taken, since it holds the time and the process id.
pub mod Steps
pub mod Budget
mod Tests
use xian_abci.Prelude.{
  ℕ, zero, suc, ◌+◌, ◌-◌, String, Bool, true, false, not, ◌&&◌, ◌||◌, ltb, leb, if◌then◌else◌,
  length, Option, none, some, List, [], ◌∷◌, ◌++◌,
}
use xian_abci.Prelude.Bytes.{Bytes}
use xian_abci.Prelude.Int.{ℤ, ltb_ℤ, leb_ℤ, eqb_ℤ, ◌-ℤ◌}
use xian_abci.Prelude.Text.{text_ltb}
use xian_abci.Result.{Except, Failure, ok, err, foreign}

pub record LogFile : Type 0 where
  pub name : String
  pub mtime : ℤ
  pub size : ℕ

-- What is at the path of the active segment. An irregular entry, such as a directory, cannot be
-- opened for appending.
pub data Active : Type 0 where
  missing symlink : Active
  irregular : (stat_size : ℕ) → Active
  regular : LogFile → Active

-- The operations on files that raise `OSError` in a call: `stat_fails` and `rename_fails` stand for
-- the tests that come before them, too. A write that raises has written some of its bytes.
pub record Faults : Type 0 where
  pub lock_fails : Bool
  pub stat_fails : Bool
  pub rename_fails : Bool
  pub list_fails : Bool
  pub file_stat_fails : LogFile → Bool
  pub unlink_fails : LogFile → Bool
  pub open_fails : Bool
  pub failed_write : Option ℕ
  pub unlock_fails : Bool

pub record Limits : Type 0 where
  pub max_file_bytes : ℕ
  pub archive_budget : ℕ
  pub rotation_time : ℤ
  pub retention_time : ℤ

pub record BoundedLogSink : Type 0 where
  pub active : Active
  pub archives : List LogFile
  pub opened_at : ℤ

-- The order of the tuples that `sorted` compares: the modification time, then the name.
abbrev is_older : LogFile → LogFile → Bool
is_older f g = ltb_ℤ f.mtime g.mtime || (eqb_ℤ f.mtime g.mtime && text_ltb f.name g.name)

unfoldable pub insert_file : LogFile → List LogFile → List LogFile
insert_file f [] = f ∷ []
insert_file f (g ∷ gs) =
    let rest = insert_file f gs in if is_older g f then g ∷ rest else f ∷ g ∷ gs

unfoldable pub sort_files : List LogFile → List LogFile
sort_files [] = []
sort_files (f ∷ fs) = insert_file f (sort_files fs)

abbrev pub total_size : List LogFile → ℕ
total_size [] = 0
total_size (f ∷ fs) = f.size + total_size fs

abbrev pub os_error : Failure
os_error = foreign "OSError"

-- The outcome of a step on some state: what it raised, if it did, and the state.
abbrev pub Step : Type 0 → Type 0
Step A = Except (Unit {0}) × A

abbrev pub and_then : {A : Type 0} → Step A → (A → Step A) → Step A
and_then (err e, state) next = (err e, state)
and_then (ok _, state) next = next state

-- The size that `stat` gives.
abbrev pub stat_size : Active → ℕ
stat_size (regular f) = f.size
stat_size (irregular size) = size
stat_size _ = 0

-- `is_symlink`, `exists` and `stat` of the active path are one question.
abbrev pub is_symlink : Active → Bool
is_symlink symlink = true
is_symlink _ = false

abbrev pub is_irregular : Active → Bool
is_irregular (irregular size) = true
is_irregular _ = false

-- After a `rename`, which takes an irregular entry away, too; that is no archive.
abbrev pub renamed : ℤ → String → BoundedLogSink → BoundedLogSink
renamed monotonic destination sink = elim sink.active [
  | missing ↦ record sink { opened_at = monotonic }
  | symlink ↦ record sink { opened_at = monotonic }
  | irregular size ↦ record sink { active = missing; opened_at = monotonic }
  | regular f ↦ record sink {
    active = missing;
    archives = sink.archives ++ (record f { name = destination } ∷ []);
    opened_at = monotonic;
  }
]

-- `handle.write(data)` and the close: all of the bytes, or some of them and an error.
abbrev pub appended : ℤ → ℕ → BoundedLogSink → BoundedLogSink
appended now length sink = record sink {
  active =
      regular
        (record { name = "xian-abci.log"; mtime = now; size = stat_size sink.active + length });
}

abbrev pub at_most : ℕ → ℕ → ℕ
at_most n bound = if leb n bound then n else bound

abbrev pub written : ℤ → ℕ → Option ℕ → BoundedLogSink → Step BoundedLogSink
written now length none sink = (ok tt, appended now length sink)
written now length (some n) sink = (err os_error, appended now (at_most n length) sink)

-- The lock is released at the end in any case.
abbrev pub unlocked : Bool → Step BoundedLogSink → Step BoundedLogSink
unlocked unlock_fails (r, sink) = (if unlock_fails then err os_error else r, sink)

module _ (faults : Faults) where
  unfoldable pub rotate : ℤ → String → BoundedLogSink → Step BoundedLogSink
  rotate monotonic destination sink =
      if faults.rename_fails
      then (err os_error, sink)
      else (ok tt, renamed monotonic destination sink)

  -- The loop that unlinks the archives older than the retention time.
  unfoldable pub unlink_expired : ℤ → List LogFile → Step (List LogFile)
  unlink_expired cutoff [] = (ok tt, [])
  unlink_expired cutoff (f ∷ fs) =
      let (r, rest) = unlink_expired cutoff fs in
      if faults.file_stat_fails f
      then (err os_error, f ∷ fs)
      else if not (ltb_ℤ f.mtime cutoff)
      then (r, f ∷ rest)
      else if faults.unlink_fails f
      then (err os_error, f ∷ fs)
      else (r, rest)

  -- The loop that unlinks the oldest archives. The size is the sum of the files, so that it never
  -- falls below 0.
  unfoldable pub trim : ℕ → ℕ → List LogFile → Step (List LogFile)
  trim budget size [] = (ok tt, [])
  trim budget size (f ∷ fs) =
      let rest = trim budget (size - f.size) fs in
      if leb size budget
      then (ok tt, f ∷ fs)
      else if faults.unlink_fails f
      then (err os_error, f ∷ fs)
      else rest

  module _ (limits : Limits) where
    abbrev pub clean : ℤ → List LogFile → Step (List LogFile)
    clean now archives =
        and_then (unlink_expired (now -ℤ limits.retention_time) archives)
          (λ kept. trim limits.archive_budget (total_size kept) (sort_files kept))

    abbrev pub with_archives : BoundedLogSink → Step (List LogFile) → Step BoundedLogSink
    with_archives sink (r, archives) = (r, record sink { archives = archives })

    -- After a rotation: there is no active segment among the owned files then.
    unfoldable pub cleanup : ℤ → BoundedLogSink → Step BoundedLogSink
    cleanup now sink =
        if faults.list_fails
        then (err os_error, sink)
        else with_archives sink (clean now sink.archives)

    abbrev pub must_rotate : ℤ → ℕ → BoundedLogSink → Bool
    must_rotate monotonic length sink =
        ltb limits.max_file_bytes (stat_size sink.active + length)
        || leb_ℤ limits.rotation_time (monotonic -ℤ sink.opened_at)

    abbrev pub prepare_segment : ℤ → ℤ → String → Bool → BoundedLogSink → Step BoundedLogSink
    prepare_segment now monotonic destination true sink =
        and_then (rotate monotonic destination sink) (cleanup now)
    prepare_segment now monotonic destination false sink = (ok tt, sink)

    -- `open("ab")` and the write.
    abbrev pub append : ℤ → ℕ → BoundedLogSink → Step BoundedLogSink
    append now length sink =
        if faults.open_fails || is_irregular sink.active
        then (err os_error, sink)
        else written now length faults.failed_write sink

    abbrev pub write_segment : ℤ → ℤ → String → Bytes → BoundedLogSink → Step BoundedLogSink
    write_segment now monotonic destination payload sink =
        if faults.stat_fails || is_symlink sink.active
        then (err os_error, sink)
        else and_then
            (prepare_segment now monotonic destination (must_rotate monotonic (length payload) sink)
              sink)
            (append now (length payload))

    unfoldable pub write_data : ℤ → ℤ → String → Bytes → BoundedLogSink → Step BoundedLogSink
    write_data now monotonic destination payload sink =
        if faults.lock_fails
        then (err os_error, sink)
        else unlocked faults.unlock_fails (write_segment now monotonic destination payload sink)
