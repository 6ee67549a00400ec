-- ===== src/Plan/Chunks/Keyed.antt =====
-- The samples that the planner finds by their ids, and whose items they are.
use region_sensitivity.Prelude.{
  ◌≡◌, refl, sym, ap, subst, ◌∙◌, String, Option, none, some, List, [], ◌∷◌, map, str_eq, eq_iff,
  Bool-cases, inl, inr,
}
use region_sensitivity.Outcome.{ok}
use region_sensitivity.Outcome.Yields.{
  Yields, Yields-ok, Yields-err, Yields-bind, Yields-check, Yields-use, Yields-if,
}
use region_sensitivity.Dict.{Dict, get, put, put_all, get-put, is_distinct}
use region_sensitivity.Work.{WorkItem, SampleMeta}
use region_sensitivity.Plan.Items.{sample_items}
use region_sensitivity.Plan.Items.Owned.{AllOwned, sample_items-Owned}
use region_sensitivity.Plan.Chunks.{
  Inputs, is_nil, sort_samples, sample_entries, or_plan_error, load_samples, known_sample,
  items_for,
}

-- `_sample_by_id[id].sample_id == id`
abbrev pub IsKeyed : Dict SampleMeta → Type 0
IsKeyed d = (id : String) (s : SampleMeta) → get id d ≡ some s → s.sample_id ≡ id

put-IsKeyed : (s : SampleMeta) (d : Dict SampleMeta) → IsKeyed d → IsKeyed (put s.sample_id s d)
put-IsKeyed s d h other found e = elim (Bool-cases (str_eq s.sample_id other)) [
  | inl same ↦
      let here : some s ≡ some found = sym (get-put s.sample_id other s d ∙ rw same refl) ∙ e in
      let it : s ≡ found = cc in
      sym (ap (λ t. SampleMeta.sample_id t) it) ∙ (eq_iff s.sample_id other).0 same
  | inr differs ↦ h other found (sym (get-put s.sample_id other s d ∙ rw differs refl) ∙ e)
]

put_all-IsKeyed :
    (ss : List SampleMeta) (d : Dict SampleMeta)
    → IsKeyed d
    → IsKeyed (put_all (sample_entries ss) d)
unfolding put_all
put_all-IsKeyed [] d h = h
put_all-IsKeyed (s ∷ ss) d h = put_all-IsKeyed ss (put s.sample_id s d) (put-IsKeyed s d h)

empty-IsKeyed : IsKeyed []
unfolding get
empty-IsKeyed id s e = cc

load_samples-IsKeyed : (inputs : Inputs) → Yields (λ loaded. IsKeyed loaded.1) (load_samples inputs)
unfolding load_samples
load_samples-IsKeyed inputs = Yields-bind (or_plan_error inputs.list_samples) _ λ samples _.
    Yields-check (is_nil samples) _ _ λ _.
      let ordered = sort_samples samples in
      Yields-if (is_distinct (map (λ (s : SampleMeta). s.sample_id) ordered)) _ _
        (λ _. Yields-ok (ordered, _) (put_all-IsKeyed ordered [] empty-IsKeyed)) (λ _. Yields-err _)

-- The items that are found for an id are that sample's.
pub items_for-Owned :
    (inputs : Inputs) (loaded : List SampleMeta × Dict SampleMeta) (id : String)
    (items : List WorkItem)
    → load_samples inputs ≡ ok loaded
    → items_for inputs loaded.1 id ≡ ok items
    → AllOwned id items
unfolding items_for
items_for-Owned inputs loaded id items is_loaded found =
    Yields-use _ items
      (Yields-bind (known_sample inputs loaded.1 (get id loaded.1)) _ λ sample known.
        subst
          (λ t.
            Yields (AllOwned t) (sample_items inputs.digest inputs.config inputs.provider sample))
          (Yields-use _ loaded (load_samples-IsKeyed inputs) is_loaded id sample
            (known_some (get id loaded.1) sample known))
          (sample_items-Owned inputs.digest inputs.config inputs.provider sample))
      found
  where
    known_some :
        (o : Option SampleMeta) (s : SampleMeta)
        → known_sample inputs loaded.1 o ≡ ok s
        → o ≡ some s
    known_some none s e = cc
    known_some (some t) s e = cc
