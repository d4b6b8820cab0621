-- ===== src/ApiServer/Routes.antt =====
-- cmd/apiserver/main.go: the table of the routes. How gin finds the route of a request is its own,
-- and so is the handler of the swagger pages.
use ccb_operator.Base.{String, List, [], ◌∷◌}
use ccb_operator.Go.{Action}
use ccb_operator.Cluster.{Cluster}
use ccb_operator.Grpc.{ResultsClient}
use ccb_operator.Util.Formats.{Formats}
use ccb_operator.ApiServer.{
  Context, Unmarshal, greeting, create_calculation_bulk, create_worker_pool,
  delete_calculation_bulk, delete_worker_pool, delete_calculation, get_calculation_bulks,
  get_calculations, get_worker_pools, get_calculation_bulk_by_name, get_calculation_by_name,
  get_calculation, get_worker_pool_by_name, get_results,
}

pub data Method : Type 0 where
  get post delete : Method

pub record Route (W : Type 0) : Type 0 where
  pub method : Method
  pub path : String
  pub handle : Context W → Action W (Unit {0})

module _ (C : Cluster) (F : Formats) (G : ResultsClient C.World) (unmarshal : Unmarshal)
    (quote : String → String) (namespace : String)
    (swagger : Context C.World → Action C.World (Unit {0})) where
  unfoldable pub healthz : Context C.World → Action C.World (Unit {0})
  healthz c = c.json 200 (greeting "OK")

  abbrev route : Method → String → (Context C.World → Action C.World (Unit {0})) → Route C.World
  route method path handle = record { method = method; path = path; handle = handle }

  unfoldable pub routes : List (Route C.World)
  unfolding healthz
  routes =
      route get "/calculations" (get_calculations C namespace)
      ∷ route delete "/calculations/delete/:id" (λ c. delete_calculation C namespace c quote)
      ∷ route get "/calculation" (λ c. get_calculation C namespace c F)
      ∷ route get "/calculation/:id" (get_calculation_by_name C namespace)
      ∷ route get "/bulks" (get_calculation_bulks C namespace)
      ∷ route get "/bulk/:id" (get_calculation_bulk_by_name C namespace)
      ∷ route post "/bulk/create" (λ c. create_calculation_bulk C namespace c F unmarshal)
      ∷ route delete "/bulks/delete/:id" (delete_calculation_bulk C namespace)
      ∷ route get "/workerpools" (get_worker_pools C namespace)
      ∷ route get "/workerpool/:id" (get_worker_pool_by_name C namespace)
      ∷ route post "workerpool/create" (create_worker_pool C namespace)
      ∷ route delete "/workerpools/delete/:id" (delete_worker_pool C namespace)
      ∷ route post "/results" (λ c. get_results C namespace c G)
      ∷ route get "/swagger/*any" swagger
      ∷ route get "/healthz" healthz
      ∷ []
