-- ===== src/Status.antt =====
-- `ItemStatus` of ssat/core/types.py, and the text that stands for it in a dump.
use region_sensitivity.Prelude.{◌≡◌, refl, Bool, true, false, String, if◌then◌else◌, str_eq}
use region_sensitivity.Outcome.{Result, ok, err, value_error}

pub data ItemStatus : Type 0 where
  completed load_failed prepare_failed predict_failed skipped_oom : ItemStatus

-- `status is ItemStatus.OK`
abbrev pub is_ok : ItemStatus → Bool
is_ok completed = true
is_ok _ = false

-- `status.value`
unfoldable pub value : ItemStatus → String
value completed = "ok"
value load_failed = "load_failed"
value prepare_failed = "prepare_failed"
value predict_failed = "predict_failed"
value skipped_oom = "skipped_oom"

-- `ItemStatus(text)`
unfoldable pub parse : String → Result ItemStatus
parse text =
    if str_eq text "ok"
    then ok completed
    else if str_eq text "load_failed"
    then ok load_failed
    else if str_eq text "prepare_failed"
    then ok prepare_failed
    else if str_eq text "predict_failed"
    then ok predict_failed
    else if str_eq text "skipped_oom"
    then ok skipped_oom
    else err (value_error "not a valid ItemStatus")

-- The text of a status stands for that status.
pub parse-value : (status : ItemStatus) → parse (value status) ≡ ok status
unfolding parse value
parse-value completed = refl
parse-value load_failed = refl
parse-value prepare_failed = refl
parse-value predict_failed = refl
parse-value skipped_oom = refl
