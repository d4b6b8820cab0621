-- ===== src/Dispatcher/Factory.antt =====
-- pkg/dispatcher/factory/controller.go: runs the calculation of a factory, and creates the bulk
-- that its output describes.
pub mod Made
use ccb_operator.Base.{
  Bool, true, false, not, ◌&&◌, ◌==◌, if◌then◌else◌, String, ◌<>◌, Option, none, some, List, [],
  ◌∷◌,
}
use ccb_operator.Go.{Error, Action, pure, wrapping, ◌>>=◌, ◌>>◌}
use ccb_operator.Api.{Kind}
use ccb_operator.Api.Meta.{Time, ObjectKey, meta_key, no_meta}
use ccb_operator.Api.Calculations.{CalculationPhase, Calculation, zero_calculation, no_params}
use ccb_operator.Api.Bulks.{CalculationBulk}
use ccb_operator.Api.Factories.{CalculationBulkFactory}
use ccb_operator.Cluster.{Cluster}
use ccb_operator.Cluster.Modify.{modify}
use ccb_operator.Events.{Event, create, update, delete, generic, Requests}
use ccb_operator.Util.Calculations.{new_step}
use ccb_operator.Util.Labels.{factory_label, calc_root_folder}

-- The methods of calculationBulkFactoryHandler.
unfoldable pub handle : String → Event CalculationBulkFactory → Requests
handle namespace (create o) = if namespace == o.meta.namespace then meta_key o.meta ∷ [] else []
handle namespace (update _ o) = if namespace == o.meta.namespace then meta_key o.meta ∷ [] else []
handle namespace (delete _) = []
handle namespace (generic _) = []

-- os.ReadFile and yaml.Unmarshal (`none` is its error), filepath.Join of three parts, and the send
-- on the channel of calculations, which waits for a receiver.
pub record Outside (W : Type 0) : Type 0 where
  pub read_file : String → Action W String
  pub unmarshal_bulk : String → Option CalculationBulk
  pub join : String → String → String → String
  pub send : Calculation → Action W (Unit {0})

abbrev pub is_set : Option Time → Bool
is_set none = false
is_set (some _) = true

-- The calculation that runs the factory's command.
abbrev pub factory_calculation : ObjectKey → CalculationBulkFactory → Calculation
factory_calculation req factory = record zero_calculation {
  meta = record no_meta {
    namespace = req.namespace;
    name = "calc-factory-" <> req.name;
    labels = some ((factory_label, req.name) ∷ (calc_root_folder, factory.root_folder) ∷ []);
  };
  phase = CalculationPhase.created;
  input_files = factory.input_files;
  spec = record { params = no_params; steps = new_step factory.command factory.args ∷ [] };
  worker_pool = factory.worker_pool;
}

module _ (C : Cluster) (O : Outside C.World) (nfs_path : String) where
  unfoldable pub mark_created : ObjectKey → Action C.World (Unit {0})
  mark_created req =
      modify C Kind.factories req
        ("failed to get calculationbulkfactory " <> req.name <> " in namespace " <> req.namespace)
        "failed to update calculationbulkfactory "
        λ f. pure (record f { status = record (f.status) { bulk_created = true } })

  -- The return for a file that is no bulk reports no error.
  unfoldable pub create_bulk : ObjectKey → Option CalculationBulk → Action C.World (Unit {0})
  unfolding mark_created
  create_bulk req none = pure tt
  create_bulk req (some bulk) = do C.create Kind.bulks bulk; mark_created req

  -- The test for a missing factory behind the first return is never met.
  unfoldable pub reconcile : ObjectKey → Action C.World (Unit {0})
  unfolding create_bulk
  reconcile req = do
    factory ←
        wrapping
          ("failed to get calculationbulkfactory " <> req.name <> " in namespace " <> req.namespace)
          (C.get Kind.factories req)
    if is_set factory.status.completion_time && not factory.status.bulk_created
        then (do
          b ← O.read_file (O.join nfs_path factory.root_folder factory.bulk_output)
          create_bulk req (O.unmarshal_bulk b))
        else O.send (factory_calculation req factory)
