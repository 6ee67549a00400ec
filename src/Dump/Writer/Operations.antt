-- ===== src/Dump/Writer/Operations.antt =====
-- The writer's operations, in any order, whatever fails: the dump stays sound.
use region_sensitivity.Prelude.{Bool, List, [], ◌∷◌, All}
use region_sensitivity.Outcome.{Result, ok, err}
use region_sensitivity.Outcome.Exec.{Exec, Post, Ensures}
use region_sensitivity.Dump.Types.{CleanDumpRecord, PerturbedDumpRecord}
use region_sensitivity.Dump.Session.{ConfigApi, Session}
use region_sensitivity.Dump.Writer.{
  write_clean, write_perturbed, flush, close, leave, write_clean_many, write_perturbed_many,
}
use region_sensitivity.Dump.Writer.Safe.{Safe}
use region_sensitivity.Dump.Writer.Calls.{
  IsCheckedClean, IsCheckedPerturbed, named_of_checked, id_of_checked, flush-Safe, write_clean-Safe,
  write_perturbed-Safe, close-Safe, leave-Safe, write_clean_many-Safe, write_perturbed_many-Safe,
}

-- A caller's use of a writer. An exception ends only its own operation: the caller may go on.
pub data Operation (Output : Type 0) : Type 0 where
  put_clean : CleanDumpRecord Output → Operation Output
  put_perturbed : PerturbedDumpRecord Output → Operation Output
  commit : Operation Output
  shut leave_with : Bool → Operation Output
  put_clean_many : List (CleanDumpRecord Output) → Operation Output
  put_perturbed_many : List (PerturbedDumpRecord Output) → Operation Output

abbrev pub IsChecked : {Output : Type 0} → Operation Output → Type 0
IsChecked (put_clean r) = IsCheckedClean r
IsChecked (put_perturbed r) = IsCheckedPerturbed r
IsChecked (put_clean_many rs) = All IsCheckedClean rs
IsChecked (put_perturbed_many rs) = All IsCheckedPerturbed rs
IsChecked _ = Unit

module _ {api : ConfigApi} {Output Logits : Type 0} (logits_list : Output → Logits) where
  perform : Operation Output → Exec (Session api Output Logits) Unit
  perform (put_clean r) = write_clean api logits_list r
  perform (put_perturbed r) = write_perturbed api logits_list r
  perform commit = flush api logits_list
  perform (shut success) = close api logits_list success
  perform (leave_with raised) = leave api logits_list raised
  perform (put_clean_many rs) = write_clean_many api logits_list rs
  perform (put_perturbed_many rs) = write_perturbed_many api logits_list rs

  -- the state after the operations, exceptions caught
  pub perform_all : List (Operation Output) → Session api Output Logits → Session api Output Logits
  unfolding perform
  perform_all [] s = s
  perform_all (o ∷ os) s = perform_all os (perform o s).1

  perform-Safe :
      (o : Operation Output) (s : Session api Output Logits)
      → IsChecked o
      → Safe s
      → Ensures (λ _ t. Safe t) (λ _ t. Safe t) (perform o) s
  unfolding perform
  perform-Safe (put_clean r) s c h = write_clean-Safe logits_list r s (named_of_checked r c) h
  perform-Safe (put_perturbed r) s c h =
      write_perturbed-Safe logits_list r s (id_of_checked r.work_item c) h
  perform-Safe commit s c h = flush-Safe logits_list s h
  perform-Safe (shut success) s c h = close-Safe logits_list success s h
  perform-Safe (leave_with raised) s c h = leave-Safe logits_list raised s h
  perform-Safe (put_clean_many rs) s c h = write_clean_many-Safe logits_list rs s c h
  perform-Safe (put_perturbed_many rs) s c h = write_perturbed_many-Safe logits_list rs s c h

  after :
      (r : Result Unit) (t : Session api Output Logits)
      → Post (λ _ t. Safe t) (λ _ t. Safe t) (r, t)
      → Safe t
  after (ok _) t h = h
  after (err _) t h = h

  -- Whatever operations a caller makes, with records that passed their checks, and whichever writes
  -- the file system loses or publishes before it fails, a dump that is sound stays sound.
  pub perform_all-Safe :
      (os : List (Operation Output)) (s : Session api Output Logits)
      → All IsChecked os
      → Safe s
      → Safe (perform_all os s)
  unfolding perform_all
  perform_all-Safe [] s c h = h
  perform_all-Safe (o ∷ os) s c h =
      let (r, t) = perform o s in
      perform_all-Safe os t c.1 (after r t (perform-Safe o s c.0 h).holds)
