-- ===== src/Dump/Writer/Calls.antt =====
-- Each method of `DumpWriter` keeps a sound dump sound, whether or not it raises.
use region_sensitivity.Prelude.{
  ℕ, ◌≡◌, Bool, true, false, Option, none, List, [], ◌∷◌, ◌++◌, arith, All, All-append,
}
use region_sensitivity.Outcome.{dump_error, ok}
use region_sensitivity.Outcome.Exec.{
  Exec, pure, raise, ◌>>◌, Ensures, Ensures-pure, Ensures-raise, Ensures-bind, Ensures-then,
  Ensures-bind_gets, Ensures-if, Ensures-try,
}
use region_sensitivity.Work.{WorkItem, check_item, is_sha256, is_blank}
use region_sensitivity.Dump.Types.{CleanDumpRecord, PerturbedDumpRecord, check_clean}
use region_sensitivity.Dump.Session.{ConfigApi, Session}
use region_sensitivity.Dump.Writer.Rules.{on_writer_rule, now_rule}
use region_sensitivity.Dump.Writer.{
  ensure_open, write_clean, write_perturbed, flush, set_finished, stamp, finish, close, leave,
  write_clean_many, write_perturbed_many,
}
use region_sensitivity.Dump.Writer.Safe.{
  IsSafe, Safe, write_manifest-Safe, flush_clean-Safe, flush_perturbed-Safe,
}

-- Records come from their constructors, so they have passed the constructors' checks.
abbrev pub IsCheckedClean : {Output : Type 0} → CleanDumpRecord Output → Type 0
IsCheckedClean r = check_clean r ≡ ok r

abbrev pub IsCheckedPerturbed : {Output : Type 0} → PerturbedDumpRecord Output → Type 0
IsCheckedPerturbed r = check_item r.work_item ≡ ok r.work_item

pub named_of_checked :
    {Output : Type 0} (r : CleanDumpRecord Output)
    → check_clean r ≡ ok r
    → is_blank r.sample_id ≡ false
unfolding check_clean
named_of_checked r h = ground arith

pub id_of_checked : (w : WorkItem) → check_item w ≡ ok w → is_sha256 w.item_id ≡ true
unfolding check_item
id_of_checked w h = ground arith

module _ {api : ConfigApi} {Output Logits : Type 0} (logits_list : Output → Logits) where
  -- an operation that is guarded by `_ensure_open`
  open_then :
      (next : Exec (Session api Output Logits) Unit) (s : Session api Output Logits)
      → Safe s
      → Ensures (λ _ t. Safe t) (λ _ t. Safe t) next s
      → Ensures (λ _ t. Safe t) (λ _ t. Safe t) (ensure_open api logits_list >> next) s
  unfolding ensure_open
  open_then next s h k = Ensures-then _ _ s (
      Ensures-bind_gets {P = λ _ t. Ensures (λ _ u. Safe u) (λ _ u. Safe u) next t} _ _ s (
        Ensures-if s.writer.closed (raise (dump_error "dump writer is closed")) (pure tt) s
          (λ _. Ensures-raise _ s h) (λ _. Ensures-pure tt s k)))

  pub flush-Safe :
      (s : Session api Output Logits)
      → Safe s
      → Ensures (λ _ t. Safe t) (λ _ t. Safe t) (flush api logits_list) s
  unfolding flush
  flush-Safe s h = open_then _ s h (
      Ensures-bind _ _ s (flush_clean-Safe logits_list s h)
        (λ _ t k. flush_perturbed-Safe logits_list t k))

  pub write_clean-Safe :
      (r : CleanDumpRecord Output) (s : Session api Output Logits)
      → is_blank r.sample_id ≡ false
      → Safe s
      → Ensures (λ _ t. Safe t) (λ _ t. Safe t) (write_clean api logits_list r) s
  unfolding write_clean
  write_clean-Safe r s named h =
      let buffered : IsSafe s.disk.fragments
          (record s.writer { clean_buffer = s.writer.clean_buffer ++ r ∷ [] }) =
        record {
          sound = h.sound;
          clean_named = All-append _ s.writer.clean_buffer (r ∷ []) h.clean_named (named, tt);
          items_named = h.items_named;
        } in
      open_then _ s h (
        Ensures-then _ _ s (
          on_writer_rule _ s (
            Ensures-bind_gets _ _ _ (
              Ensures-bind_gets _ _ _ (
                Ensures-if _ _ _ _ (λ _. flush_clean-Safe logits_list _ buffered)
                  (λ _. Ensures-pure tt _ buffered))))))

  pub write_perturbed-Safe :
      (r : PerturbedDumpRecord Output) (s : Session api Output Logits)
      → is_sha256 r.work_item.item_id ≡ true
      → Safe s
      → Ensures (λ _ t. Safe t) (λ _ t. Safe t) (write_perturbed api logits_list r) s
  unfolding write_perturbed
  write_perturbed-Safe r s named h =
      let buffered : IsSafe s.disk.fragments
          (record s.writer { perturbed_buffer = s.writer.perturbed_buffer ++ r ∷ [] }) =
        record {
          sound = h.sound;
          clean_named = h.clean_named;
          items_named = All-append _ s.writer.perturbed_buffer (r ∷ []) h.items_named (named, tt);
        } in
      open_then _ s h (
        Ensures-then _ _ s (
          on_writer_rule _ s (
            Ensures-bind_gets _ _ _ (
              Ensures-bind_gets _ _ _ (
                Ensures-if _ _ _ _ (λ _. flush_perturbed-Safe logits_list _ buffered)
                  (λ _. Ensures-pure tt _ buffered))))))

  pub set_finished-Safe :
      (time : Option ℕ) (s : Session api Output Logits)
      → Safe s
      → Ensures (λ _ t. Safe t) (λ _ t. Safe t) (set_finished api logits_list time) s
  unfolding set_finished
  set_finished-Safe time s h =
      on_writer_rule _ s
        (record { sound = h.sound; clean_named = h.clean_named; items_named = h.items_named })

  pub stamp-Safe :
      (success : Bool) (s : Session api Output Logits)
      → Safe s
      → Ensures (λ _ t. Safe t) (λ _ t. Safe t) (stamp api logits_list success) s
  unfolding stamp
  stamp-Safe success s h =
      Ensures-if success _ _ s
        (λ _. Ensures-then _ _ s (
          now_rule s (
            set_finished-Safe _ _ (record {
              sound = h.sound;
              clean_named = h.clean_named;
              items_named = h.items_named;
            }))))
        (λ _. set_finished-Safe none s h)

  pub finish-Safe :
      (success : Bool) (s : Session api Output Logits)
      → Safe s
      → Ensures (λ _ t. Safe t) (λ _ t. Safe t) (finish api logits_list success) s
  unfolding finish
  finish-Safe success s h = Ensures-bind _ _ s (flush-Safe s h) λ _ t k.
      Ensures-bind _ _ t (stamp-Safe success t k) λ _ u k'.
        Ensures-bind _ _ u (write_manifest-Safe u k') λ _ v k''. on_writer_rule _ v (record {
          sound = k''.sound;
          clean_named = k''.clean_named;
          items_named = k''.items_named;
        })

  pub close-Safe :
      (success : Bool) (s : Session api Output Logits)
      → Safe s
      → Ensures (λ _ t. Safe t) (λ _ t. Safe t) (close api logits_list success) s
  unfolding close
  close-Safe success s h =
      Ensures-bind_gets _ _ s
        (Ensures-if _ _ _ s (λ _. Ensures-pure tt s h) (λ _. finish-Safe success s h))

  pub leave-Safe :
      (raised : Bool) (s : Session api Output Logits)
      → Safe s
      → Ensures (λ _ t. Safe t) (λ _ t. Safe t) (leave api logits_list raised) s
  unfolding leave
  leave-Safe raised s h =
      Ensures-if raised _ _ s
        (λ _. Ensures-try _ _ s (close-Safe false s h) λ e t k. Ensures-pure tt t k)
        (λ _. close-Safe true s h)

  pub write_clean_many-Safe :
      (rs : List (CleanDumpRecord Output)) (s : Session api Output Logits)
      → All IsCheckedClean rs
      → Safe s
      → Ensures (λ _ t. Safe t) (λ _ t. Safe t) (write_clean_many api logits_list rs) s
  unfolding write_clean_many
  write_clean_many-Safe [] s c h = Ensures-pure tt s h
  write_clean_many-Safe (r ∷ rs) s c h =
      Ensures-bind _ _ s (write_clean-Safe r s (named_of_checked r c.0) h)
        λ _ t k. write_clean_many-Safe rs t c.1 k

  pub write_perturbed_many-Safe :
      (rs : List (PerturbedDumpRecord Output)) (s : Session api Output Logits)
      → All IsCheckedPerturbed rs
      → Safe s
      → Ensures (λ _ t. Safe t) (λ _ t. Safe t) (write_perturbed_many api logits_list rs) s
  unfolding write_perturbed_many
  write_perturbed_many-Safe [] s c h = Ensures-pure tt s h
  write_perturbed_many-Safe (r ∷ rs) s c h =
      Ensures-bind _ _ s (write_perturbed-Safe r s (id_of_checked r.work_item c.0) h)
        λ _ t k. write_perturbed_many-Safe rs t c.1 k
