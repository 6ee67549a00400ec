-- ===== src/Dump/Writer/Rules.antt =====
-- Proof rules for the durable writes: a write publishes and returns, or raises with the file lost
-- or published.
use region_sensitivity.Prelude.{ℕ, ◌+◌, ◌≡◌, refl, List}
use region_sensitivity.Outcome.{Exception}
use region_sensitivity.Outcome.Exec.{Post, Ensures, Ensures-modify}
use region_sensitivity.Dump.Types.{CleanRow, PerturbedRow, IndexRow}
use region_sensitivity.Dump.Storage.{
  WriteFate, done, lost, published_then_failed, atomic_write, publish,
}
use region_sensitivity.Dump.Index.{Fragments}
use region_sensitivity.Dump.Session.{
  ConfigApi, Writer, Session, now, publish_clean, publish_perturbed, publish_index, on_writer,
  write_manifest, next_fate, later_fates, content, files_of,
}

module _ {api : ConfigApi} {Output Logits : Type 0} where
  -- the disk with other fragments, after one write
  abbrev pub wrote : Fragments Logits → Session api Output Logits → Session api Output Logits
  wrote f s = record s { disk = record s.disk { fragments = f; fates = later_fates s.disk.fates } }

  module _ {P : Unit → Session api Output Logits → Type 0}
      {Q : Exception → Session api Output Logits → Type 0} where
    -- A write publishes and returns, or raises with the file lost or published.
    pub publish_clean_rule :
        (n : ℕ) (rows : List (CleanRow Logits)) (s : Session api Output Logits)
        → P tt (wrote (record s.disk.fragments { clean = publish n rows s.disk.fragments.clean }) s)
        → ((e : Exception) → Q e (wrote s.disk.fragments s))
        → ((e : Exception)
            → Q e (
                wrote
                  (record s.disk.fragments { clean = publish n rows s.disk.fragments.clean })
                  s))
        → Ensures P Q (publish_clean n rows) s
    unfolding publish_clean atomic_write
    publish_clean_rule n rows s p q q' = record { holds = go (next_fate s.disk.fates) }
      where
        go :
            (fate : WriteFate)
            → Post P Q (
              (atomic_write fate n rows s.disk.fragments.clean).0,
              wrote
                  (record s.disk.fragments {
                    clean = (atomic_write fate n rows s.disk.fragments.clean).1;
                  })
                  s,
            )
        go done = p
        go lost = q _
        go published_then_failed = q' _

    pub publish_perturbed_rule :
        (n : ℕ) (rows : List (PerturbedRow Logits)) (s : Session api Output Logits)
        → P tt (
            wrote
              (record s.disk.fragments { perturbed = publish n rows s.disk.fragments.perturbed })
              s)
        → ((e : Exception) → Q e (wrote s.disk.fragments s))
        → ((e : Exception)
            → Q e (
                wrote
                  (record s.disk.fragments {
                    perturbed = publish n rows s.disk.fragments.perturbed;
                  })
                  s))
        → Ensures P Q (publish_perturbed n rows) s
    unfolding publish_perturbed atomic_write
    publish_perturbed_rule n rows s p q q' = record { holds = go (next_fate s.disk.fates) }
      where
        go :
            (fate : WriteFate)
            → Post P Q (
              (atomic_write fate n rows s.disk.fragments.perturbed).0,
              wrote
                  (record s.disk.fragments {
                    perturbed = (atomic_write fate n rows s.disk.fragments.perturbed).1;
                  })
                  s,
            )
        go done = p
        go lost = q _
        go published_then_failed = q' _

    pub publish_index_rule :
        (n : ℕ) (rows : List IndexRow) (s : Session api Output Logits)
        → P tt (wrote (record s.disk.fragments { index = publish n rows s.disk.fragments.index }) s)
        → ((e : Exception) → Q e (wrote s.disk.fragments s))
        → ((e : Exception)
            → Q e (
                wrote
                  (record s.disk.fragments { index = publish n rows s.disk.fragments.index })
                  s))
        → Ensures P Q (publish_index n rows) s
    unfolding publish_index atomic_write
    publish_index_rule n rows s p q q' = record { holds = go (next_fate s.disk.fates) }
      where
        go :
            (fate : WriteFate)
            → Post P Q (
              (atomic_write fate n rows s.disk.fragments.index).0,
              wrote
                  (record s.disk.fragments {
                    index = (atomic_write fate n rows s.disk.fragments.index).1;
                  })
                  s,
            )
        go done = p
        go lost = q _
        go published_then_failed = q' _

  pub on_writer_rule :
      {P : Unit → Session api Output Logits → Type 0}
      {Q : Exception → Session api Output Logits → Type 0}
      (f : Writer api Output → Writer api Output) (s : Session api Output Logits)
      → P tt (record s { writer = f s.writer })
      → Ensures P Q (on_writer f) s
  unfolding on_writer
  on_writer_rule f s h = Ensures-modify _ s h

  pub now_rule :
      {P : ℕ → Session api Output Logits → Type 0}
      {Q : Exception → Session api Output Logits → Type 0} (s : Session api Output Logits)
      → P s.disk.clock (record s { disk = record s.disk { clock = s.disk.clock + 1 } })
      → Ensures P Q now s
  unfolding now
  now_rule s h = record { holds = h }

  pub write_manifest_rule :
      {P : Unit → Session api Output Logits → Type 0}
      {Q : Exception → Session api Output Logits → Type 0} (s : Session api Output Logits)
      → ((t : Session api Output Logits)
          → t.disk.fragments ≡ s.disk.fragments
          → t.writer ≡ s.writer
          → P tt t × ((e : Exception) → Q e t))
      → Ensures P Q write_manifest s
  unfolding write_manifest atomic_write
  write_manifest_rule {P} {Q} s h = record { holds = go (next_fate s.disk.fates) }
    where
      next : WriteFate → Session api Output Logits
      next fate = record s {
        disk = record s.disk {
          stored_manifest =
              content (atomic_write fate 0 s.writer.manifest (files_of s.disk.stored_manifest)).1;
          fates = later_fates s.disk.fates;
        };
      }

      go :
          (fate : WriteFate)
          → Post P Q (
            (atomic_write fate 0 s.writer.manifest (files_of s.disk.stored_manifest)).0,
            next fate,
          )
      go done = (h (next done) refl refl).0
      go lost = (h (next lost) refl refl).1 _
      go published_then_failed = (h (next published_then_failed) refl refl).1 _
