-- ===== src/LogRetention/Budget.antt =====
-- The budget of the log directory, and what an error leaves.
use xian_abci.Prelude.{ℕ, ◌+◌, ◌≤◌, ◌≡◌, ◌⊎◌}
use xian_abci.Prelude.Bytes.{Bytes}
use xian_abci.LogRetention.{Active, missing, Faults, Limits, BoundedLogSink, total_size, stat_size}
use xian_abci.LogRetention.Steps.{segment_size, held, Cause}

module _ (faults : Faults) (limits : Limits) where
  -- The active segment and the archives keep their limits.
  pub record IsWithin (sink : BoundedLogSink) : Type 0 where
    pub segment : segment_size sink.active ≤ limits.max_file_bytes
    pub archived : total_size sink.archives ≤ limits.archive_budget

  -- Ready for some more bytes: at a new segment, or at the one that was there.
  pub record IsReady (active : Active) (n total : ℕ) (sink : BoundedLogSink) : Type 0 where
    pub place : (sink.active ≡ missing) ⊎ (sink.active ≡ active)
    pub fits : stat_size sink.active + n ≤ limits.max_file_bytes
    pub archived : total_size sink.archives ≤ limits.archive_budget
    pub no_more : held sink ≤ total

  -- After an error: the segment keeps its limit, and there are not more bytes than these.
  pub record IsStopped (active : Active) (total : ℕ) (sink : BoundedLogSink) : Type 0 where
    pub segment : segment_size sink.active ≤ limits.max_file_bytes
    pub no_more : held sink ≤ total
    pub cause : Cause faults active

  -- Where it has returned: a new segment has these bytes, or the old one has them too, and the
  -- limits are kept.
  pub record IsWritten (active : Active) (n total : ℕ) (sink : BoundedLogSink) : Type 0 where
    pub grown :
        (segment_size sink.active ≡ n) ⊎ (segment_size sink.active ≡ segment_size active + n)
    pub within : IsWithin sink
    pub no_more : held sink ≤ total + n
