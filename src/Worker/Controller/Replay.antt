-- ===== src/Worker/Controller/Replay.antt =====
-- The result updater on all that the executor tells of one calculation.
use mathlib.Core.List.{append_assoc}
use ccb_operator.Base.{
  suc, ◌≡◌, refl, sym, ◌∙◌, ap, true, false, String, List, [], ◌∷◌, ◌++◌, map, All, inl, inr,
  length, Bool-cases,
}
use ccb_operator.Go.{Action}
use ccb_operator.Go.Success.{Succeeds}
use ccb_operator.Go.Rules.{Runs->>=, Runs-map, Runs-pure}
use ccb_operator.Api.Calculations.{Calculation, Step, is_no_phase}
use ccb_operator.Cluster.{Cluster}
use ccb_operator.Cluster.Laws.{Contract}
use ccb_operator.Cluster.Ready.{Ready}
use ccb_operator.Worker.{Identity}
use ccb_operator.Worker.Messages.{Result, Message}
use ccb_operator.Worker.Executor.Steps.{pending, told, alarm, IsResultOf}
use ccb_operator.Worker.Controller.{in_failure, message, result_updater}
use ccb_operator.Worker.Controller.Received.{Holds, receive_result-Succeeds, receive_error-Succeeds}
use ccb_operator.Worker.Controller.Ran.{
  Replayed, with_steps, Ran-kept, Ran-reported, with_result-at, alarm_cases, length-snoc,
  Replayed-cons, Replayed-failed,
}

module _ (C : Cluster) (L : Contract C) (ready : Ready C L) (me : Identity) (name : String) where
  abbrev pub replay : List Message → Action C.World (Unit {0})
  replay messages = result_updater C me (map message messages)

  -- From one calculation to what is stored in its place.
  abbrev pub Becomes :
      (Calculation → Calculation → Type 0) → Calculation → Action C.World (Unit {0}) → Type 0
  Becomes R calc m =
      Succeeds (λ w. Holds C L ready me name calc (L.view w)) m
        (λ _ w. (calc' : Calculation) × R calc calc' × Holds C L ready me name calc' (L.view w))

  -- After the result of a step: the failure of the calculation, if it failed, and what is told of
  -- the other steps.
  alarmed-Becomes :
      (done ss : List Step) (s : Step) (r : Result) (calc : Calculation) (rest : List Message)
      → IsResultOf name r
      → is_no_phase s.status ≡ true
      → let s' = record s { status = r.status } in
        let calc1 = with_steps calc ((done ++ (s' ∷ [])) ++ ss) in
        ((calc2 : Calculation)
          → calc2.spec.steps ≡ (done ++ (s' ∷ [])) ++ ss
          → Becomes (Replayed (done ++ (s' ∷ [])) ss) calc2 (replay rest))
        → Succeeds
            (λ w. Holds C L ready me name calc1 (L.view w))
            (replay (alarm r ++ rest))
            (λ _ w.
              (calc' : Calculation) × Replayed done (s ∷ ss) calc calc'
              × Holds C L ready me name calc' (L.view w))
  unfolding result_updater in_failure
  alarmed-Becomes done ss s r calc rest (named, status) fresh ih =
      let s' = record s { status = r.status } in
      let calc1 = with_steps calc ((done ++ (s' ∷ [])) ++ ss) in
      let ran = Ran-reported s r.command_error r.status fresh status in
      elim (alarm_cases r r.command_error refl status) [
        | inl (quiet, _) ↦ rw quiet (
            Runs-map
              (λ _ w (calc', replayed, holds).
                (calc', Replayed-cons done ss s s' calc calc' ran replayed, holds))
              (ih calc1 refl))
        | inr (loud, failed) ↦ rw loud (
            Runs->>= _ _ (receive_error-Succeeds C L ready me name r.calc_name calc1 named) λ _.
              record {
                run = λ w (now, holds).
                    (Runs-map
                        (λ _ u (calc', replayed, after). (
                          calc',
                          Replayed-failed done ss s s' calc calc' now ran failed replayed,
                          after,
                        ))
                        (ih (in_failure now calc1) refl)).run
                      w holds;
              })
      ]

  -- A step that was run, with what is told of it and of the others.
  first_told-Becomes :
      (s : Step) (ss done : List Step) (results : List Result) (calc : Calculation)
      → calc.spec.steps ≡ done ++ (s ∷ ss)
      → is_no_phase s.status ≡ true
      → map (λ r. r.step) results ≡ length done ∷ pending (suc (length done)) ss
      → All (IsResultOf name) results
      → ((s' : Step) (rs : List Result) (calc2 : Calculation)
          → calc2.spec.steps ≡ (done ++ (s' ∷ [])) ++ ss
          → map (λ r. r.step) rs ≡ pending (suc (length done)) ss
          → All (IsResultOf name) rs
          → Becomes (Replayed (done ++ (s' ∷ [])) ss) calc2 (replay (told rs)))
      → Becomes (Replayed done (s ∷ ss)) calc (replay (told results))
  unfolding result_updater
  first_told-Becomes s ss done [] calc e fresh indexes each ih = absurd (cc indexes)
  first_told-Becomes s ss done (r ∷ rs) calc e fresh indexes (is, each) ih =
      let head : r.step ≡ length done = cc indexes in
      let tail : map (λ r. r.step) rs ≡ pending (suc (length done)) ss = cc indexes in
      Runs->>= _ _
        (receive_result-Succeeds C L ready me name r calc _ is.0
          (with_result-at r calc done s ss e head) refl)
        λ _.
          alarmed-Becomes done ss s r calc (told rs) is fresh
            λ calc2 e2. ih (record s { status = r.status }) rs calc2 e2 tail each

  pub replay-Becomes :
      (todo done : List Step) (results : List Result) (calc : Calculation)
      → calc.spec.steps ≡ done ++ todo
      → map (λ r. r.step) results ≡ pending (length done) todo
      → All (IsResultOf name) results
      → Becomes (Replayed done todo) calc (replay (told results))
  unfolding result_updater
  replay-Becomes [] done [] calc e indexes each =
      Runs-pure _ λ w holds. (calc, ([], e, tt, inl (refl, refl), refl), holds)
  replay-Becomes [] done (r ∷ rs) calc e indexes each = absurd (cc indexes)
  replay-Becomes (s ∷ ss) done results calc e indexes each =
      elim (Bool-cases (is_no_phase s.status)) [
        | inr f ↦
            Runs-map
              (λ _ w (calc', replayed, holds).
                (calc', Replayed-cons done ss s s calc calc' (Ran-kept s f) replayed, holds))
              (replay-Becomes ss (done ++ (s ∷ [])) results calc
                (e ∙ sym (append_assoc done (s ∷ []) ss)) (later f) each)
        | inl f ↦
            first_told-Becomes s ss done results calc e f (rw f at indexes) each
              λ s' rs calc2 e2 tail each2.
                replay-Becomes ss (done ++ (s' ∷ [])) rs calc2 e2
                  (tail ∙ sym (ap (λ i. pending i ss) (length-snoc done s'))) each2
      ]
    where
      later :
          is_no_phase s.status ≡ false
          → map (λ r. r.step) results ≡ pending (length (done ++ (s ∷ []))) ss
      later f = (rw f at indexes) ∙ sym (ap (λ i. pending i ss) (length-snoc done s))
