-- ===== src/Dump/Open/Interrupted.antt =====
-- A run that is interrupted at any point of its writing can be resumed.
use region_sensitivity.Prelude.{List}
use region_sensitivity.Dump.Session.{ConfigApi, Disk, Session}
use region_sensitivity.Dump.Writer.Safe.{Safe}
use region_sensitivity.Dump.Writer.Operations.{Operation, perform_all}

module _ {api : ConfigApi} {Output Logits : Type 0} (logits_list : Output → Logits) where
  -- the disk that a writer leaves, for a later process that meets other fates
  abbrev pub disk_after : List (Operation Output) → Session api Output Logits → Disk api Logits
  disk_after os s = Session.disk (perform_all logits_list os s)
