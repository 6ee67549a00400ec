-- ===== src/Dump/Create/Created.antt =====
-- A new dump: the writer that the operations start from.
use region_sensitivity.Prelude.{
  ◌≡◌, refl, ap, sym, subst, ◌∙◌, Bool, true, false, some, List, [], ◌∷◌, arith, if◌then◌else◌,
}
use region_sensitivity.Outcome.{Result, ok, err, dump_error}
use region_sensitivity.Outcome.Exec.{
  ◌>>=◌, Post, Ensures, Ensures-weaken, Ensures-both, Ensures-bind, Ensures-gets, Ensures-if,
  Ensures-pure, Ensures-raise,
}
use region_sensitivity.Work.{is_blank}
use region_sensitivity.Dump.Index.{Fragments}
use region_sensitivity.Dump.Session.{
  ConfigApi, Root, no_root, directory, other_file, Disk, Writer, next_fate, is_nil,
}
use region_sensitivity.Dump.Writer.Safe.{IsSafe}
use region_sensitivity.Dump.Open.{Opening, write_first}
use region_sensitivity.Dump.Open.Outcomes.{first_write, first_write_root}
use region_sensitivity.Dump.Create.{
  is_empty_disk, root_checked, check_root, first_writer, new_writer, create,
}
use region_sensitivity.Dump.Create.Making.{
  HasNone, IsFileSystem, AcceptsNew, IsRefusedNew, IsChecked, IsMade, make_folder_rule, root_rule,
}

no_root-directory : no_root ≡ directory → ⊥
no_root-directory e = cc

module _ {api : ConfigApi} {Output Logits : Type 0} where
  -- An open writer over a sound dump without a fragment, its manifest and the three folders on the
  -- disk.
  pub record IsCreated (w : Writer api Output) (t : Disk api Logits) : Type 0 where
    pub safe : IsSafe t.fragments w
    pub nothing_yet : HasNone t.fragments
    pub is_open : w.closed ≡ false
    pub durable : t.stored_manifest ≡ some w.manifest
    pub rooted : t.root ≡ directory
    pub made : t.folders ≡ "clean" ∷ "perturbed" ∷ "index" ∷ []

  first_writer-IsSafe :
      (f : Fragments Logits) (o : Opening api) (t : Disk api Logits)
      → HasNone f
      → IsSafe {api = api} {Output = Output} f (first_writer o t)
  unfolding first_writer
  first_writer-IsSafe f o t h = record {
    sound = record {
      clean_order = rw (h.0) (omega arith);
      perturbed_order = rw (h.1) (omega arith);
      index_order = rw (h.2) (omega arith);
      clean_rows = rw (h.0) tt;
      perturbed_rows = rw (h.1) tt;
      linked = rw (h.2) tt;
    };
    clean_named = tt;
    items_named = tt;
  }

module _ {api : ConfigApi} {Logits : Type 0} (o : Opening api) (disk : Disk api Logits) where
  is_nil_eq : {A : Type 0} (xs : List A) → is_nil xs ≡ true → xs ≡ []
  is_nil_eq [] e = refl
  is_nil_eq (x ∷ xs) e = cc

  no_folders : is_empty_disk disk ≡ true → disk.folders ≡ []
  unfolding is_empty_disk
  no_folders h = is_nil_eq disk.folders (ground arith)

  module _ (there : IsFileSystem disk) where
    start : disk.folders ≡ [] → IsChecked o disk disk
    start none_made = record {
      none_there = there.bare none_made;
      kept = refl;
      same_fates = refl;
      left = λ a. AcceptsNew.makes a;
      made = none_made;
      rooted = refl;
    }

    abbrev Checked : Result (Unit {0}) × Disk api Logits → Type 0
    Checked = Post (λ _ t. IsChecked o disk t) (λ _ u. IsRefusedNew o disk u)

    checked_rule :
        Ensures (λ _ t. IsChecked o disk t) (λ _ u. IsRefusedNew o disk u) check_root disk
    unfolding check_root root_checked
    checked_rule = record { holds = go disk.root refl }
      where
        empty :
            (there_is : disk.root ≡ directory) (holds_none : Bool)
            → is_empty_disk disk ≡ holds_none
            → Checked (
                if holds_none
                then (ok tt, disk)
                else (err (dump_error "create mode requires an empty dump root"), disk))
        empty there_is true e = start (no_folders e)
        empty there_is false e = record {
          kept = refl;
          not_accepted = λ a. let holds_none = AcceptsNew.is_empty a there_is in cc;
        }

        go : (root : Root) → disk.root ≡ root → Checked (root_checked root disk)
        go directory e = empty e (is_empty_disk disk) refl
        go no_root e = start (there.rootless (λ k. no_root-directory (sym e ∙ k)))
        go other_file e = record { kept = refl; not_accepted = λ a. AcceptsNew.no_file a e }

    new_writer_rule :
        (Output : Type 0)
        → Ensures
            (λ w u. IsMade o disk u × (w ≡ first_writer {Output = Output} o u))
            (λ _ u. IsRefusedNew o disk u)
            (new_writer o)
            disk
    unfolding new_writer
    new_writer_rule Output = Ensures-bind _ _ disk checked_rule (λ _ t h.
        Ensures-bind _ _ t (root_rule o disk t h) (λ _ u k.
          Ensures-bind _ _ u (make_folder_rule o disk "clean" 2 [] u k) (λ _ v l.
            Ensures-bind _ _ v (make_folder_rule o disk "perturbed" 1 ("clean" ∷ []) v l) (λ _ w m.
              Ensures-bind _ _ w
                (make_folder_rule o disk "index" 0 ("clean" ∷ "perturbed" ∷ []) w m)
                (λ _ x n. Ensures-gets (first_writer o) x (n, refl))))))

    written :
        (Output : Type 0) (u : Disk api Logits)
        → IsMade o disk u
        → Ensures
            (IsCreated {Output = Output})
            (λ _ t. IsRefusedNew o disk t)
            (write_first (ok (first_writer o u)))
            u
    unfolding first_writer
    written Output u made =
        Ensures-weaken _ u
          (Ensures-both _ u (first_write (first_writer o u) u)
            (first_write_root (first_writer o u) u))
          (λ w t ((same, kept, durable), (folders, root)).
            let left = kept ∙ made.kept in
            subst (λ v. IsCreated v t) (sym same)
              (record {
                safe =
                    subst (λ f. IsSafe {Output = Output} f (first_writer o u)) (sym left)
                      (first_writer-IsSafe disk.fragments o u made.none_there);
                nothing_yet = subst HasNone (sym left) made.none_there;
                is_open = refl;
                durable = durable;
                rooted = root ∙ made.rooted;
                made = folders ∙ made.made;
              }))
          (λ e t ((kept, fails), _). record {
            kept = kept ∙ made.kept;
            not_accepted = λ a. fails (ap next_fate made.same_fates ∙ AcceptsNew.writes a);
          })

    rest_rule :
        (Output : Type 0)
        → Ensures
            (IsCreated {Output = Output})
            (λ _ v. IsRefusedNew o disk v)
            (new_writer o >>= λ w. write_first (ok w))
            disk
    rest_rule Output = Ensures-bind _ _ disk (new_writer_rule Output) (λ w u (made, first).
        subst
          (λ v.
            Ensures (IsCreated {Output = Output}) (λ _ t. IsRefusedNew o disk t)
              (write_first (ok v)) u)
          (sym first) (written Output u made))

    -- Creating a dump either returns an open writer over a sound dump without a fragment, its
    -- manifest and the three folders on the disk, or is refused and changes no fragment: only if the code version is
    -- blank, the root is a file or a directory that is not empty, one of the root and the three
    -- folders cannot be made, or the manifest cannot be written. That fragments are in folders, and
    -- folders in a root that is a directory, is the condition.
    pub create_total :
        (Output : Type 0)
        → Ensures (IsCreated {Output = Output}) (λ _ u. IsRefusedNew o disk u) (create o) disk
    unfolding create
    create_total Output =
        Ensures-bind {P = λ _ t. t ≡ disk} _ _ disk
          (Ensures-if (is_blank o.code_version) _ _ disk
            (λ blank. Ensures-raise _ disk (record {
              kept = refl;
              not_accepted = λ a. let given = AcceptsNew.has_code_version a in cc;
            }))
            (λ given. Ensures-pure tt disk refl))
          (λ _ t same.
            subst
              (λ u.
                Ensures (IsCreated {Output = Output}) (λ _ v. IsRefusedNew o disk v)
                  (new_writer o >>= λ w. write_first (ok w)) u)
              (sym same) (rest_rule Output))
