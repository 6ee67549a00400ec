-- ===== src/Dump/Writer/Quiet.antt =====
-- A dump whose writes all happen: every write publishes and returns.
use region_sensitivity.Prelude.{
  ℕ, ◌≡◌, refl, sym, ap, subst, ◌∙◌, String, Bool, true, false, Option, some, List, [], ◌∷◌, ◌++◌,
  map, str_eq, if◌then◌else◌,
}
use mathlib.Core.Option
use region_sensitivity.Outcome.{Exception, ok}
use region_sensitivity.Outcome.Exec.{Post, Ensures}
use region_sensitivity.Dict.{last_entry}
use region_sensitivity.Status.{ItemStatus}
use region_sensitivity.Dump.Types.{CleanRow, PerturbedRow, IndexRow}
use region_sensitivity.Dump.Storage.{Directory, WriteFate, atomic_write, publish}
use region_sensitivity.Dump.Session.{
  ConfigApi, Session, publish_clean, publish_perturbed, publish_index, write_manifest, next_fate,
  content, files_of, later_fates,
}
use region_sensitivity.Dump.Writer.Rules.{wrote}

-- the write that happens
atomic_write_done :
    {A : Type 0} (fates : List WriteFate) (n : ℕ) (a : A) (d : Directory A)
    → fates ≡ []
    → atomic_write (next_fate fates) n a d ≡ (ok tt, publish n a d)
unfolding atomic_write
atomic_write_done fates n a d quiet = rw quiet refl

module _ {api : ConfigApi} {Output Logits : Type 0} where
  -- the manifest after one write
  abbrev pub noted : Session api Output Logits → Session api Output Logits
  noted s = record s {
    disk = record s.disk {
      stored_manifest = content (publish 0 s.writer.manifest (files_of s.disk.stored_manifest));
      fates = later_fates s.disk.fates;
    };
  }

module _ {api : ConfigApi} {Output Logits : Type 0} {P : Unit → Session api Output Logits → Type 0}
    {Q : Exception → Session api Output Logits → Type 0} where
  pub publish_clean_done :
      (n : ℕ) (rows : List (CleanRow Logits)) (s : Session api Output Logits)
      → s.disk.fates ≡ []
      → P tt (wrote (record s.disk.fragments { clean = publish n rows s.disk.fragments.clean }) s)
      → Ensures P Q (publish_clean n rows) s
  unfolding publish_clean
  publish_clean_done n rows s quiet p = record {
    holds =
        subst (λ o. Post P Q (o.0, wrote (record s.disk.fragments { clean = o.1 }) s))
          (sym (atomic_write_done s.disk.fates n rows s.disk.fragments.clean quiet)) p;
  }

  pub publish_perturbed_done :
      (n : ℕ) (rows : List (PerturbedRow Logits)) (s : Session api Output Logits)
      → s.disk.fates ≡ []
      → P tt (
          wrote
            (record s.disk.fragments { perturbed = publish n rows s.disk.fragments.perturbed })
            s)
      → Ensures P Q (publish_perturbed n rows) s
  unfolding publish_perturbed
  publish_perturbed_done n rows s quiet p = record {
    holds =
        subst (λ o. Post P Q (o.0, wrote (record s.disk.fragments { perturbed = o.1 }) s))
          (sym (atomic_write_done s.disk.fates n rows s.disk.fragments.perturbed quiet)) p;
  }

  pub publish_index_done :
      (n : ℕ) (rows : List IndexRow) (s : Session api Output Logits)
      → s.disk.fates ≡ []
      → P tt (wrote (record s.disk.fragments { index = publish n rows s.disk.fragments.index }) s)
      → Ensures P Q (publish_index n rows) s
  unfolding publish_index
  publish_index_done n rows s quiet p = record {
    holds =
        subst (λ o. Post P Q (o.0, wrote (record s.disk.fragments { index = o.1 }) s))
          (sym (atomic_write_done s.disk.fates n rows s.disk.fragments.index quiet)) p;
  }

  pub write_manifest_done :
      (s : Session api Output Logits)
      → s.disk.fates ≡ []
      → P tt (noted s)
      → Ensures P Q write_manifest s
  unfolding write_manifest
  write_manifest_done s quiet p = record {
    holds =
        subst
          (λ o. Post P Q (
            o.0,
            record s {
              disk = record s.disk {
                stored_manifest = content o.1;
                fates = later_fates s.disk.fates;
              };
            },
          ))
          (sym (
            atomic_write_done s.disk.fates 0 s.writer.manifest (files_of s.disk.stored_manifest)
              quiet))
          p;
  }

-- The last entry of a key, over lists that are put together or relabelled.
pub last_entry-append :
    {V : Type 0} (key : String) (xs ys : List (String × V)) (o : Option V)
    → last_entry key (xs ++ ys) o ≡ last_entry key ys (last_entry key xs o)
unfolding last_entry
last_entry-append key [] ys o = refl
last_entry-append key ((k, v) ∷ xs) ys o =
    last_entry-append key xs ys (if str_eq k key then some v else o)

module _ {R V : Type 0} (name : R → String) (full : R → V) (status : R → ItemStatus)
    (forget : V → ItemStatus) (agree : (r : R) → forget (full r) ≡ status r) where
  -- `forget` of the last full entry is the last status
  pub last_entry-map :
      (key : String) (rs : List R) (o : Option V)
      → Option.map forget (last_entry key (map (λ r. (name r, full r)) rs) o)
        ≡ last_entry key (map (λ r. (name r, status r)) rs) (Option.map forget o)
  unfolding last_entry
  last_entry-map key [] o = refl
  last_entry-map key (r ∷ rs) o =
      last_entry-map key rs (if str_eq (name r) key then some (full r) else o)
      ∙ ap (last_entry key (map (λ r. (name r, status r)) rs)) (step (str_eq (name r) key))
    where
      step :
          (b : Bool)
          → Option.map forget (if b then some (full r) else o)
            ≡ (if b then some (status r) else Option.map forget o)
      step true = ap some (agree r)
      step false = refl
