-- ===== src/Dump/Open/Resumed.antt =====
-- A resumed writer goes on from where the dump stands.
use mathlib.Core.Option
use region_sensitivity.Prelude.{ℕ, false, []}
use region_sensitivity.Outcome.{Result}
use region_sensitivity.Outcome.Exec.{Ensures}
use region_sensitivity.Dump.Sound.{IsSound}
use region_sensitivity.Dump.Session.{ConfigApi, RunManifest, Disk, Writer}
use region_sensitivity.Dump.Open.{Opening, resumed_manifest, write_first}
use region_sensitivity.Dump.Open.Outcomes.{items_now, samples_now, IsResumed, IsRefused}

module _ {api : ConfigApi} {Output Logits : Type 0} where
  module _ (o : Opening api) (disk : Disk api Logits) (c p : ℕ)
      (sound : IsSound disk.fragments c p) where
    abbrev Target : Result (Writer api Output) → Type 0
    Target r = Ensures (IsResumed disk) (λ _ t. IsRefused o disk t) (write_first r) disk

    abbrev next_writer : RunManifest api → ℕ → ℕ → Writer api Output
    next_writer m clean_next perturbed_next = record {
      config = o.config;
      manifest =
          resumed_manifest o disk.clock (samples_now disk.fragments) (items_now disk.fragments) m;
      clean_buffer = [];
      perturbed_buffer = [];
      closed = false;
      clean_statuses = samples_now disk.fragments;
      item_statuses = items_now disk.fragments;
      clean_ordinal = clean_next;
      perturbed_ordinal = perturbed_next;
    }
