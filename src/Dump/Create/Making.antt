-- ===== src/Dump/Create/Making.antt =====
-- Making the root and the folders of a new dump, of which each step may fail.
use region_sensitivity.Prelude.{
  ℕ, zero, suc, ◌≡◌, ◌≢◌, refl, ap, sym, subst, ◌∙◌, String, Bool, true, false, List, [], ◌∷◌, ◌++◌,
  if◌then◌else◌,
}
use region_sensitivity.Outcome.{ok, err, Exception, os_error}
use region_sensitivity.Outcome.Exec.{Post, Ensures}
use region_sensitivity.Work.{is_blank}
use region_sensitivity.Dump.Storage.{done}
use region_sensitivity.Dump.Index.{Fragments}
use region_sensitivity.Dump.Session.{
  ConfigApi, Root, no_root, directory, other_file, Disk, next_fate,
}
use region_sensitivity.Dump.Open.{Opening}
use region_sensitivity.Dump.Create.{
  mkdir_fails, later_mkdirs, is_empty_disk, mkdir, root_made, make_root, make_folder, with_root,
  with_folder,
}

-- no fragment, whatever the orders of the listings
abbrev pub HasNone : {Logits : Type 0} → Fragments Logits → Type 0
HasNone f = (f.clean ≡ []) × (f.perturbed ≡ []) × (f.index ≡ [])

-- the next so many `mkdir`s succeed
abbrev pub MakesAll : ℕ → List Bool → Type 0
MakesAll zero mkdirs = Unit
MakesAll (suc n) mkdirs = (mkdir_fails mkdirs ≡ false) × MakesAll n (later_mkdirs mkdirs)

-- the root, unless it is there, and the three folders
abbrev pub to_make : Root → ℕ
to_make directory = 3
to_make _ = 4

-- Fragments are in folders, and folders are in a root that is a directory.
pub record IsFileSystem {api : ConfigApi} {Logits : Type 0} (disk : Disk api Logits) : Type 0 where
  pub bare : disk.folders ≡ [] → HasNone disk.fragments
  pub rootless : disk.root ≢ directory → disk.folders ≡ []

module _ {api : ConfigApi} {Logits : Type 0} (o : Opening api) (disk : Disk api Logits) where
  pub record AcceptsNew : Type 0 where
    pub has_code_version : is_blank o.code_version ≡ false
    pub no_file : disk.root ≢ other_file
    pub is_empty : disk.root ≡ directory → is_empty_disk disk ≡ true
    pub makes : MakesAll (to_make disk.root) disk.mkdirs
    pub writes : next_fate disk.fates ≡ done

  pub record IsRefusedNew (t : Disk api Logits) : Type 0 where
    pub kept : t.fragments ≡ disk.fragments
    pub not_accepted : AcceptsNew → ⊥

  -- Nothing but the root and folders has been made, and `n` are left to make.
  pub record IsMaking (n : ℕ) (names : List String) (root : Root) (t : Disk api Logits)
      : Type 0 where
    pub none_there : HasNone disk.fragments
    pub kept : t.fragments ≡ disk.fragments
    pub same_fates : t.fates ≡ disk.fates
    pub left : AcceptsNew → MakesAll n t.mkdirs
    pub made : t.folders ≡ names
    pub rooted : t.root ≡ root

  mkdir_rule :
      (make : Disk api Logits → Disk api Logits) (n : ℕ) (names names' : List String)
      (root root' : Root) (t : Disk api Logits)
      → ((u : Disk api Logits) → Disk.fragments (make u) ≡ u.fragments)
      → ((u : Disk api Logits) → Disk.fates (make u) ≡ u.fates)
      → ((u : Disk api Logits) → Disk.mkdirs (make u) ≡ u.mkdirs)
      → ((u : Disk api Logits) → u.folders ≡ names → Disk.folders (make u) ≡ names')
      → ((u : Disk api Logits) → u.root ≡ root → Disk.root (make u) ≡ root')
      → IsMaking (suc n) names root t
      → Ensures (λ _. IsMaking n names' root') (λ _ u. IsRefusedNew u) (mkdir make) t
  unfolding mkdir
  mkdir_rule make n names names' root root' t fragments fates mkdirs grows roots h = record {
    holds = go (mkdir_fails t.mkdirs) refl;
  }
    where
      next : Disk api Logits
      next = record t { mkdirs = later_mkdirs t.mkdirs }

      go :
          (fails : Bool)
          → mkdir_fails t.mkdirs ≡ fails
          → Post
              (λ _. IsMaking n names' root')
              (λ (e : Exception) u. IsRefusedNew u)
              (if fails then (err (os_error "mkdir failed"), next) else (ok tt, make next))
      go true e = record { kept = h.kept; not_accepted = λ a. let succeeds = (h.left a).0 in cc }
      go false e = record {
        none_there = h.none_there;
        kept = fragments _ ∙ h.kept;
        same_fates = fates _ ∙ h.same_fates;
        left = λ a. subst (MakesAll n) (sym (mkdirs _)) (h.left a).1;
        made = grows next h.made;
        rooted = roots next h.rooted;
      }

  pub make_folder_rule :
      (name : String) (n : ℕ) (names : List String) (t : Disk api Logits)
      → IsMaking (suc n) names directory t
      → Ensures
          (λ _. IsMaking n (names ++ name ∷ []) directory)
          (λ _ u. IsRefusedNew u)
          (make_folder name)
          t
  unfolding make_folder
  make_folder_rule name n names t =
      mkdir_rule (with_folder name) n names (names ++ name ∷ []) directory directory t (λ u. refl)
        (λ u. refl) (λ u. refl) (λ u e. ap (λ ns. ns ++ name ∷ []) e) (λ u e. e)

  with_root_rule :
      (root : Root) (t : Disk api Logits)
      → IsMaking 4 [] root t
      → Ensures (λ _. IsMaking 3 [] directory) (λ _ u. IsRefusedNew u) (mkdir with_root) t
  with_root_rule root t =
      mkdir_rule with_root 3 [] [] root directory t (λ u. refl) (λ u. refl) (λ u. refl) (λ u e. e)
        (λ u e. refl)

module _ {api : ConfigApi} {Logits : Type 0} (o : Opening api) (disk : Disk api Logits) where
  -- the checks have passed, and nothing is made yet
  abbrev pub IsChecked : Disk api Logits → Type 0
  IsChecked t = IsMaking o disk (to_make t.root) [] t.root t

  abbrev pub IsMade : Disk api Logits → Type 0
  IsMade = IsMaking o disk 0 ("clean" ∷ "perturbed" ∷ "index" ∷ []) directory

  pub root_rule :
      (t : Disk api Logits)
      → IsChecked t
      → Ensures (λ _. IsMaking o disk 3 [] directory) (λ _ u. IsRefusedNew o disk u) make_root t
  unfolding make_root root_made
  root_rule t h = record { holds = go t.root h }
    where
      go :
          (root : Root)
          → IsMaking o disk (to_make root) [] root t
          → Post
              (λ _. IsMaking o disk 3 [] directory)
              (λ (e : Exception) u. IsRefusedNew o disk u)
              (root_made root t)
      go directory k = k
      go no_root k = (with_root_rule o disk no_root t k).holds
      go other_file k = (with_root_rule o disk other_file t k).holds
