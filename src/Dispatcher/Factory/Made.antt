-- ===== src/Dispatcher/Factory/Made.antt =====
-- What one reconciliation of a factory does to the cluster.
use ccb_operator.Base.{
  ◌≡◌, refl, sym, ◌∙◌, ap, ◌⊎◌, inl, inr, true, false, Bool, not, ◌&&◌, String, Option, none, some,
  arith, if◌then◌else◌,
}
use ccb_operator.Go.{Action, Outcome, ok, err, panic, ◌>>=◌}
use ccb_operator.Go.Rules.{
  Runs, Runs->>=, Runs-wrapping, Runs-pure, Runs-weaken, Runs_given, ended, Ends,
}
use ccb_operator.Api.{Kind, key_of}
use ccb_operator.Api.Meta.{ObjectKey}
use ccb_operator.Api.Calculations.{Calculation}
use ccb_operator.Api.Bulks.{CalculationBulk}
use ccb_operator.Api.Factories.{CalculationBulkFactory}
use ccb_operator.Cluster.{Cluster}
use ccb_operator.Cluster.View.{View, put}
use ccb_operator.Cluster.Laws.{Contract}
use ccb_operator.Cluster.Modify.{Same, Runs-get, Runs-create, Runs-modify}
use ccb_operator.Dispatcher.Factory.{
  Outside, is_set, factory_calculation, mark_created, create_bulk, reconcile,
}

-- The factory's calculation has ended, and its bulk is not made yet.
abbrev pub IsReady : CalculationBulkFactory → Type 0
IsReady f = (is_set f.status.completion_time ≡ true) × (f.status.bulk_created ≡ false)

abbrev pub with_bulk : CalculationBulkFactory → CalculationBulkFactory
with_bulk f = record f { status = record (f.status) { bulk_created = true } }

-- Nothing has changed, or the factory was ready and a bulk is new, and the factory may be marked.
abbrev pub Made : ObjectKey → View → View → Type 0
Made req v u =
    (u ≡ v)
    ⊎ ((f : CalculationBulkFactory) × (bulk : CalculationBulk) × (v Kind.factories req ≡ some f)
        × IsReady f
        × (v Kind.bulks (key_of Kind.bulks bulk) ≡ none)
        × (let made = put v Kind.bulks bulk in
            (u ≡ made) ⊎ (u ≡ put made Kind.factories (with_bulk f))))

module _ (C : Cluster) (L : Contract C) (O : Outside C.World) (nfs_path : String)
    (read_apart : (path : String) (w : C.World) → L.view (O.read_file path w).1 ≡ L.view w)
    (send_apart : (calc : Calculation) (w : C.World) → L.view (O.send calc w).1 ≡ L.view w)
    (req : ObjectKey) (v : View) where
  abbrev P : C.World → Type 0
  P w = Made req v (L.view w)

  mark_created-Made :
      (f : CalculationBulkFactory) (bulk : CalculationBulk)
      → v Kind.factories req ≡ some f
      → IsReady f
      → v Kind.bulks (key_of Kind.bulks bulk) ≡ none
      → Runs (Same C L (put v Kind.bulks bulk)) (mark_created C O nfs_path req) (λ _. P) P
  unfolding mark_created
  mark_created-Made f bulk found ready fresh =
      Runs-weaken
        (λ a w (g, g', stored, e, after).
          let same : g ≡ f = cc (stored, found) in
          inr (
            f,
            bulk,
            found,
            ready,
            fresh,
            inr (after ∙ ap (put (put v Kind.bulks bulk) Kind.factories) (e ∙ ap with_bulk same)),
          ))
        (λ w after. inr (f, bulk, found, ready, fresh, inl after))
        (Runs-modify C L Kind.factories req _ _ _ (λ g g'. g' ≡ with_bulk g)
          (λ u g. Runs-pure _ λ w same. (refl, same)) (put v Kind.bulks bulk))

  -- A creation that succeeds was one of a bulk that was not there.
  create-Fresh :
      (bulk : CalculationBulk)
      → Runs
          (Same C L v)
          (C.create Kind.bulks bulk)
          (λ _ w.
            (v Kind.bulks (key_of Kind.bulks bulk) ≡ none) × Same C L (put v Kind.bulks bulk) w)
          (Same C L v)
  create-Fresh bulk = record {
    run = λ w same.
        fresh_at (C.create Kind.bulks bulk w).0 (C.create Kind.bulks bulk w).1
          (λ done.
            ap (λ u. u Kind.bulks (key_of Kind.bulks bulk)) (sym same)
            ∙ L.create_fresh Kind.bulks bulk w done)
          ((Runs-create C L v Kind.bulks bulk).run w same);
  }
    where
      fresh_at :
          (r : Outcome (Unit {0})) (u : C.World)
          → (r ≡ ok tt → v Kind.bulks (key_of Kind.bulks bulk) ≡ none)
          → Ends (λ _ w. L.view w ≡ put v Kind.bulks bulk) (Same C L v) r u
          → Ends
              (λ _ w.
                (v Kind.bulks (key_of Kind.bulks bulk) ≡ none) × Same C L (put v Kind.bulks bulk) w)
              (Same C L v)
              r
              u
      fresh_at (ok a) u fresh h = (fresh refl, h)
      fresh_at (err e) u fresh h = h
      fresh_at (panic s) u fresh h = h

  create_bulk-Made :
      (f : CalculationBulkFactory) (bulk : Option CalculationBulk)
      → v Kind.factories req ≡ some f
      → IsReady f
      → Runs (Same C L v) (create_bulk C O nfs_path req bulk) (λ _. P) P
  unfolding create_bulk
  create_bulk-Made f none found ready = Runs-pure _ λ w same. inl same
  create_bulk-Made f (some bulk) found ready =
      Runs->>= _ _ (Runs-weaken (λ a w h. h) (λ w same. inl same) (create-Fresh bulk)) λ _.
        Runs_given (v Kind.bulks (key_of Kind.bulks bulk) ≡ none) (λ w p. p)
          λ fresh. mark_created-Made f bulk found ready fresh

  Same-of_apart :
      {A : Type 0} (m : Action C.World A)
      → ((w : C.World) → L.view (m w).1 ≡ L.view w)
      → Runs (Same C L v) m (λ _. Same C L v) P
  Same-of_apart m apart = record { run = λ w same. ended_same (m w).0 (m w).1 (apart w ∙ same) }
    where
      ended_same :
          {A : Type 0} (r : Outcome A) (u : C.World) → Same C L v u → Ends (λ _. Same C L v) P r u
      ended_same (ok a) u h = h
      ended_same (err e) u h = inl h
      ended_same (panic s) u h = inl h

  reconcile-Runs : Runs (Same C L v) (reconcile C O nfs_path req) (λ _. P) P
  unfolding reconcile
  reconcile-Runs =
      Runs->>= _ _
        (Runs-wrapping _
          (Runs-weaken (λ f w h. h) (λ w same. inl same) (Runs-get C L v Kind.factories req)))
        λ f.
          Runs_given (v Kind.factories req ≡ some f) (λ w p. p)
            λ found.
              chosen f found (is_set f.status.completion_time && not f.status.bulk_created) refl
    where
      ready_of : (s b : Bool) → s && not b ≡ true → (s ≡ true) × (b ≡ false)
      ready_of s b e = ground arith

      chosen :
          (f : CalculationBulkFactory)
          → v Kind.factories req ≡ some f
          → (b : Bool) → is_set f.status.completion_time && not f.status.bulk_created ≡ b
          → Runs
              (Same C L v)
              (if b
                then (O.read_file (O.join nfs_path f.root_folder f.bulk_output) >>= λ text_read.
                    create_bulk C O nfs_path req (O.unmarshal_bulk text_read))
                else O.send (factory_calculation req f))
              (λ _. P)
              P
      chosen f found true e =
          Runs->>= _ _ (Same-of_apart (O.read_file _) (read_apart _))
            λ text_read. create_bulk-Made f _ found (ready_of _ _ e)
      chosen f found false e =
          Runs-weaken (λ a w same. inl same) (λ w h. h) (Same-of_apart (O.send _) (send_apart _))

-- With files and the channel apart from the cluster: however the reconciliation of a factory ends,
-- nothing has changed, or the factory was completed without a bulk, and then one bulk was added
-- under a key that was free, and beside it at most the factory's own mark that the bulk is created.
pub reconcile-Made :
    (C : Cluster) (L : Contract C) (O : Outside C.World) (nfs_path : String)
    → ((path : String) (w : C.World) → L.view (O.read_file path w).1 ≡ L.view w)
    → ((calc : Calculation) (w : C.World) → L.view (O.send calc w).1 ≡ L.view w)
    → (req : ObjectKey) (w : C.World)
    → Made req (L.view w) (L.view (reconcile C O nfs_path req w).1)
reconcile-Made C L O nfs_path read_apart send_apart req w =
    ended (reconcile-Runs C L O nfs_path read_apart send_apart req (L.view w)) w refl
