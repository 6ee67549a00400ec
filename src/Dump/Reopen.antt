-- ===== src/Dump/Reopen.antt =====
-- What a later process finds when it opens a dump that a writer has left.
use region_sensitivity.Prelude.{◌≡◌, String, none, List, [], All}
use region_sensitivity.Outcome.{ok}
use region_sensitivity.Dict.{Dict, get, put_all, last_entry, get-put_all}
use region_sensitivity.Dump.Index.{
  Fragments, IndexLocation, CleanLocation, load_index_locations, load_clean_locations,
}
use region_sensitivity.Dump.Index.Loads.{
  entries, index_entry, clean_entry, load_index_locations_sound, load_clean_locations_sound,
}
use region_sensitivity.Dump.Session.{ConfigApi, Session}
use region_sensitivity.Dump.Writer.Safe.{Safe}
use region_sensitivity.Dump.Writer.Operations.{Operation, IsChecked, perform_all, perform_all-Safe}

-- Both indexes load, and give each identifier the entry of its last row.
abbrev pub Reopens : {Logits : Type 0} → Fragments Logits → Type 0
Reopens f =
    ((items : Dict IndexLocation) × (load_index_locations f ≡ ok items)
      × ((id : String) → get id items ≡ last_entry id (entries index_entry f.index) none))
    × ((samples : Dict CleanLocation) × (load_clean_locations f ≡ ok samples)
        × ((id : String) → get id samples ≡ last_entry id (entries clean_entry f.clean) none))

module _ {api : ConfigApi} {Output Logits : Type 0} (logits_list : Output → Logits) where
  -- However a writer's operations on a sound dump end, with records that passed their checks and
  -- whichever writes fail, the index and the clean fragments that are left load without an error,
  -- and give each identifier the entry of its last row, the rows being taken by ordinal and in
  -- their order, in whatever order the file system lists the directories.
  pub perform_all-Reopens :
      (os : List (Operation Output)) (s : Session api Output Logits)
      → All IsChecked os
      → Safe s
      → Reopens (Session.disk (perform_all logits_list os s)).fragments
  unfolding get
  perform_all-Reopens os s c h =
      let t = perform_all logits_list os s in
      let safe = perform_all-Safe logits_list os s c h in
      (
        (
          put_all (entries index_entry t.disk.fragments.index) [],
          load_index_locations_sound t.disk.fragments _ _ safe.sound,
          λ id. get-put_all id _ [],
        ),
        (
          put_all (entries clean_entry t.disk.fragments.clean) [],
          load_clean_locations_sound t.disk.fragments _ _ safe.sound,
          λ id. get-put_all id _ [],
        ),
      )
