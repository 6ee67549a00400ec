-- ===== src/Resume/Settled.antt =====
-- When a chunk needs work: one of its statuses is missing, or fails and is to be retried.
use region_sensitivity.Prelude.{
  ◌≡◌, refl, subst, ◌∙◌, String, Bool, true, false, not, ◌&&◌, Option, none, some, List, [], ◌∷◌,
  map, arith, any, All, Bool-cases, inl, inr,
}
use region_sensitivity.Status.{
  ItemStatus, completed, load_failed, prepare_failed, predict_failed, skipped_oom, is_ok,
}
use region_sensitivity.Resume.{is_absent, is_not_ok, needs_work}

-- The status is there, and is a success if failures are to be retried.
pub record IsSettled (retry_failed : Bool) (status : Option ItemStatus) : Type 0 where
  pub last : ItemStatus
  pub found : status ≡ some last
  pub good : retry_failed ≡ true → last ≡ completed

is_ok-eq : (status : ItemStatus) → is_ok status ≡ true → status ≡ completed
is_ok-eq completed h = refl
is_ok-eq load_failed h = cc
is_ok-eq prepare_failed h = cc
is_ok-eq predict_failed h = cc
is_ok-eq skipped_oom h = cc

pub settled :
    (retry_failed : Bool) (status : Option ItemStatus)
    → is_absent status ≡ false
    → (retry_failed && is_not_ok status) ≡ false
    → IsSettled retry_failed status
settled retry_failed none a b = cc
settled retry_failed (some status) a b = record {
  last = status;
  found = refl;
  good = λ retry. is_ok-eq status (ground arith);
}

pub absent_unsettled :
    (retry_failed : Bool) (status : Option ItemStatus)
    → is_absent status ≡ true
    → IsSettled retry_failed status
    → ⊥
absent_unsettled retry_failed none a h = let found = h.found in cc
absent_unsettled retry_failed (some status) a h = cc

pub failed_unsettled :
    (retry_failed : Bool) (status : Option ItemStatus)
    → (retry_failed && is_not_ok status) ≡ true
    → IsSettled retry_failed status
    → ⊥
failed_unsettled false status a h = cc
failed_unsettled true none a h = let found = h.found in cc
failed_unsettled true (some status) a h =
    let same : status ≡ h.last = let found = h.found in cc in
    let good : status ≡ completed = same ∙ h.good refl in
    let bad : not (is_ok completed) ≡ true = subst (λ t. not (is_ok t) ≡ true) good a in cc

module _ (retry_failed : Bool) (status : String → Option ItemStatus) where
  all-IsSettled :
      (ids : List String)
      → any is_absent (map status ids) ≡ false
      → (retry_failed && any is_not_ok (map status ids)) ≡ false
      → All (λ id. IsSettled retry_failed (status id)) ids
  all-IsSettled [] a b = tt
  all-IsSettled (id ∷ ids) a b = (
    settled retry_failed (status id) (ground arith) (ground arith),
    all-IsSettled ids (ground arith) (ground arith),
  )

  some-absent :
      (ids : List String)
      → any is_absent (map status ids) ≡ true
      → All (λ id. IsSettled retry_failed (status id)) ids
      → ⊥
  some-absent [] a h = cc
  some-absent (id ∷ ids) a h = elim (Bool-cases (is_absent (status id))) [
    | inl here ↦ absent_unsettled retry_failed (status id) here h.0
    | inr later ↦ some-absent ids (ground arith) h.1
  ]

  some-failed :
      (ids : List String)
      → (retry_failed && any is_not_ok (map status ids)) ≡ true
      → All (λ id. IsSettled retry_failed (status id)) ids
      → ⊥
  some-failed [] a h = ground arith
  some-failed (id ∷ ids) a h = elim (Bool-cases (retry_failed && is_not_ok (status id))) [
    | inl here ↦ failed_unsettled retry_failed (status id) here h.0
    | inr later ↦ some-failed ids (ground arith) h.1
  ]

  pub needs_work-false :
      (ids : List String)
      → needs_work retry_failed (map status ids) ≡ false
      → All (λ id. IsSettled retry_failed (status id)) ids
  unfolding needs_work
  needs_work-false ids h = all-IsSettled ids (ground arith) (ground arith)

  pub needs_work-true :
      (ids : List String)
      → needs_work retry_failed (map status ids) ≡ true
      → All (λ id. IsSettled retry_failed (status id)) ids
      → ⊥
  unfolding needs_work
  needs_work-true ids h = elim (Bool-cases (any is_absent (map status ids))) [
    | inl here ↦ some-absent ids here
    | inr later ↦ some-failed ids (ground arith)
  ]
