-- ===== src/Dispatcher/Calculations/Propagated.antt =====
-- What a calculation's phase is written into: its bulk or its factory.
use ccb_operator.Base.{◌≡◌, refl, inl, inr, String, Option, none, some, Bool-cases}
use ccb_operator.Base.Maps.{GoMap}
use ccb_operator.Api.{Kind}
use ccb_operator.Api.Calculations.{CalculationPhase, Calculation, is_created}
use ccb_operator.Api.Factories.{CalculationBulkFactory}
use ccb_operator.Api.Bulks.{CalculationBulk, BulkCalculation}
use ccb_operator.Cluster.{Cluster}
use ccb_operator.Cluster.View.{View, put}
use ccb_operator.Cluster.Laws.{Contract}
use ccb_operator.Cluster.Keeps.{
  Keeps, Keeps-pure, Keeps-now, Keeps->>=, Keeps-wrapping, Keeps-modify, Keeps-panics,
}
use ccb_operator.Dispatcher.Phases.{write_phase}
use ccb_operator.Dispatcher.Calculations.{
  update_factory, update_calculation_bulk, write_post_phase, update_post_calculation_bulk,
  update_named, update_labelled, propagate,
}

-- Whatever stays true when a bulk or a factory is written stays true here.
module _ (C : Cluster) (L : Contract C) (namespace : String) (P : View → Type 0)
    (puts_bulk : (o : CalculationBulk) (u : View) → P u → P (put u Kind.bulks o))
    (puts_factory : (o : CalculationBulkFactory) (u : View)
      → P u
      → P (put u Kind.factories o)) where
  write_phase-Keeps :
      (name : String) (phase : CalculationPhase) (bulk : CalculationBulk)
      → Keeps C L P (write_phase C name phase bulk)
  unfolding write_phase
  write_phase-Keeps name phase bulk = write_in bulk.calculations refl
    where
      write_in :
          (m : GoMap BulkCalculation)
          → bulk.calculations ≡ m
          → Keeps C L P (write_phase C name phase bulk)
      write_in none e = rw (e, write_phase) (Keeps-panics C L P _)
      write_in (some m) e = rw (e, write_phase) (Keeps-pure C L P _)

  write_post_phase-Keeps :
      (phase : CalculationPhase) (bulk : CalculationBulk)
      → Keeps C L P (write_post_phase C phase bulk)
  unfolding write_post_phase
  write_post_phase-Keeps phase bulk = write_in bulk.post_calculation refl
    where
      write_in :
          (m : Option BulkCalculation)
          → bulk.post_calculation ≡ m
          → Keeps C L P (write_post_phase C phase bulk)
      write_in none e = rw (e, write_post_phase) (Keeps-panics C L P _)
      write_in (some m) e = rw (e, write_post_phase) (Keeps-pure C L P _)

  update_factory-Keeps :
      (calc : Calculation) (name : String) → Keeps C L P (update_factory C calc name)
  unfolding update_factory
  update_factory-Keeps calc name = Keeps-wrapping C L P _ (
      Keeps-modify C L P Kind.factories _ _ _ _
        (λ o. Keeps->>= C L P _ _ (Keeps-now C L P) λ now. Keeps-pure C L P _) puts_factory)

  update_labelled-Keeps :
      (calc : Calculation) (bulk post : Option String)
      → Keeps C L P (update_labelled C namespace calc bulk post)
  unfolding update_labelled update_post_calculation_bulk update_named update_calculation_bulk
  update_labelled-Keeps calc none post = Keeps-pure C L P _
  update_labelled-Keeps calc (some bulk) (some _) =
      Keeps-modify C L P Kind.bulks _ _ _ _ (write_post_phase-Keeps calc.phase) puts_bulk
  update_labelled-Keeps calc (some bulk) none = named _
    where
      named : (name : Option String) → Keeps C L P (update_named C namespace bulk calc.phase name)
      named none = Keeps-pure C L P _
      named (some name) =
          Keeps-modify C L P Kind.bulks _ _ _ _ (write_phase-Keeps name calc.phase) puts_bulk

  pub propagate-Keeps :
      (calc : Calculation) (factory : Option String)
      → Keeps C L P (propagate C namespace calc factory)
  unfolding propagate
  propagate-Keeps calc none = update_labelled-Keeps calc _ _
  propagate-Keeps calc (some name) = elim (Bool-cases (is_created calc.phase)) [
    | inl e ↦ rw e (Keeps-pure C L P _)
    | inr e ↦ rw e (update_factory-Keeps calc name)
  ]
