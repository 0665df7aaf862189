-- ===== src/LogRetention/Tests.antt =====
-- The theorem on the log directory at a write that rotates the segment, drops the oldest archive and
-- then finds no room.
use xian_abci.Prelude.{false, some, ◌==◌, string_eq, [], ◌∷◌}
use xian_abci.Prelude.Int.{pos}
use xian_abci.LogRetention.{regular, Limits, Faults, BoundedLogSink}

abbrev limits : Limits
limits = record {
  max_file_bytes = 4;
  archive_budget = 5;
  rotation_time = pos 100;
  retention_time = pos 100;
}

abbrev full : BoundedLogSink
full = record {
  active = regular (record { name = "xian-abci.log"; mtime = pos 30; size = 3 });
  archives =
      record { name = "b"; mtime = pos 20; size = 2 }
      ∷ record { name = "a"; mtime = pos 10; size = 3 }
      ∷ [];
  opened_at = pos 5;
}

-- One archive cannot be removed, and the disk is full after a byte.
abbrev faults : Faults
faults = record {
  lock_fails = false;
  stat_fails = false;
  rename_fails = false;
  list_fails = false;
  file_stat_fails = λ f. false;
  unlink_fails = λ f. f.name == "b";
  open_fails = false;
  failed_write = some 1;
  unlock_fails = false;
}
