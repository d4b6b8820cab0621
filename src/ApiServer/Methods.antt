-- ===== src/ApiServer/Methods.antt =====
-- What the requests of each HTTP method may do to the cluster.
use ccb_operator.Base.{◌≡◌, refl, String, Option, none, some, All, Bool, true, false, if◌then◌else◌}
use ccb_operator.Base.Maps.{Entries}
use ccb_operator.Go.{Action}
use ccb_operator.Api.{Kind, Obj, key_of}
use ccb_operator.Api.Meta.{ObjectKey}
use ccb_operator.Cluster.{Cluster}
use ccb_operator.Cluster.View.{View, put, remove, assign, same_key}
use ccb_operator.Cluster.Laws.{Contract}
use ccb_operator.Cluster.Keeps.{kept, assign_fresh}
use ccb_operator.Grpc.{ResultsClient}
use ccb_operator.Util.Formats.{Formats}
use ccb_operator.ApiServer.{
  Context, Unmarshal, get_calculation_bulks, get_calculations, get_worker_pools,
  get_calculation_bulk_by_name, get_calculation_by_name,
}
use ccb_operator.ApiServer.Routes.{Method, get, post, delete, routes, healthz}
use ccb_operator.ApiServer.Handlers.{
  Apart, json-Keeps, get_all-Keeps, get_by_name-Keeps, get_calculation-Keeps,
  get_worker_pool_by_name-Keeps, get_results-Keeps, create_calculation_bulk-Keeps,
  create_worker_pool-Keeps, delete_calculation_bulk-Keeps, delete_worker_pool-Keeps,
  delete_calculation-Keeps,
}

-- Everything that `v` holds is in `u` unchanged.
abbrev pub IsWithin : View → View → Type 0
IsWithin v u = (k : Kind) (key : ObjectKey) (o : Obj k) → v k key ≡ some o → u k key ≡ some o

-- What a request of each method may do: a `get` changes nothing, a `post` adds objects at most, and
-- a `delete` removes objects at most.
abbrev pub Allows : Method → View → View → Type 0
Allows get v u = u ≡ v
Allows post v u = IsWithin v u
Allows delete v u = IsWithin u v

put-IsWithin :
    (v u : View) (k : Kind) (o : Obj k)
    → IsWithin v u
    → u k (key_of k o) ≡ none
    → IsWithin v (put u k o)
put-IsWithin v u k o h fresh j key x found = put_at k o fresh j key x (h j key x found)
  where
    put_at :
        (k : Kind) (o : Obj k)
        → u k (key_of k o) ≡ none
        → (j : Kind) (key : ObjectKey) (x : Obj j) → u j key ≡ some x
        → put u k o j key ≡ some x
    put_at Kind.calculations o fresh Kind.calculations key x e =
        assign_fresh (u Kind.calculations) _ key (some o) x fresh e
    put_at Kind.bulks o fresh Kind.bulks key x e =
        assign_fresh (u Kind.bulks) _ key (some o) x fresh e
    put_at Kind.factories o fresh Kind.factories key x e =
        assign_fresh (u Kind.factories) _ key (some o) x fresh e
    put_at Kind.pools o fresh Kind.pools key x e =
        assign_fresh (u Kind.pools) _ key (some o) x fresh e
    put_at Kind.pods o fresh Kind.pods key x e = assign_fresh (u Kind.pods) _ key (some o) x fresh e
    put_at k o fresh j key x e = e

assign_none :
    {A : Type 0} (f : ObjectKey → Option A) (key j : ObjectKey) (a : A)
    → assign f key none j ≡ some a
    → f j ≡ some a
assign_none f key j a found = left (same_key j key) found
  where
    left : (b : Bool) → (if b then none else f j) ≡ some a → f j ≡ some a
    left true e = absurd (cc e)
    left false e = e

remove-IsWithin : (v u : View) (k : Kind) (o : Obj k) → IsWithin u v → IsWithin (remove u k o) v
remove-IsWithin v u k o h j key x found = h j key x (removed k o j key x found)
  where
    removed :
        (k : Kind) (o : Obj k) (j : Kind) (key : ObjectKey) (x : Obj j)
        → remove u k o j key ≡ some x
        → u j key ≡ some x
    removed Kind.calculations o Kind.calculations key x e =
        assign_none (u Kind.calculations) _ key x e
    removed Kind.bulks o Kind.bulks key x e = assign_none (u Kind.bulks) _ key x e
    removed Kind.factories o Kind.factories key x e = assign_none (u Kind.factories) _ key x e
    removed Kind.pools o Kind.pools key x e = assign_none (u Kind.pools) _ key x e
    removed Kind.pods o Kind.pods key x e = assign_none (u Kind.pods) _ key x e
    removed k o j key x e = e

infixr 2 ◌&◌
◌&◌ : {A B : Type 0} → A → B → A × B
a & b = (a, b)

module _ (C : Cluster) (F : Formats) (G : ResultsClient C.World) (L : Contract C)
    (unmarshal : Unmarshal) (quote : String → String) (namespace : String)
    (swagger : Context C.World → Action C.World (Unit {0})) where
  -- With answers, the reading of requests, the swagger pages and the results service apart from the
  -- cluster: whatever the request and however its handler ends, a route with the method GET changes
  -- nothing in the cluster, one with POST changes and removes nothing that is there, and one with
  -- DELETE adds and changes nothing.
  pub routes-Allow :
      ((q : Entries String) (w : C.World) → L.view (G.get_data q w).1 ≡ L.view w)
      → (c : Context C.World) → Apart C L c
      → ((w : C.World) → L.view (swagger c w).1 ≡ L.view w)
      → (w : C.World)
      → All
          (λ r. Allows r.method (L.view w) (L.view (r.handle c w).1))
          (routes C F G unmarshal quote namespace swagger)
  unfolding routes healthz get_calculations get_calculation_bulks get_worker_pools
      get_calculation_by_name get_calculation_bulk_by_name
  routes-Allow separate c apart pages w =
      let v = L.view w in
      let same : View → Type 0 = λ u. u ≡ v in
      let more : View → Type 0 = IsWithin v in
      let less : View → Type 0 = λ u. IsWithin u v in
      let removes = λ (k : Kind) (o : Obj k) (u : View). remove-IsWithin v u k o in
      let adds = λ (k : Kind) (o : Obj k) (u : View). put-IsWithin v u k o in
      kept C L same (get_all-Keeps C L namespace c apart same Kind.calculations _) w refl
      & kept C L less (delete_calculation-Keeps C L namespace c apart less removes quote) w
          (λ k key o h. h)
      & kept C L same (get_calculation-Keeps C L namespace c apart same F) w refl
      & kept C L same (get_by_name-Keeps C L namespace c apart same Kind.calculations _) w refl
      & kept C L same (get_all-Keeps C L namespace c apart same Kind.bulks _) w refl
      & kept C L same (get_by_name-Keeps C L namespace c apart same Kind.bulks _) w refl
      & kept C L more (create_calculation_bulk-Keeps C L namespace c apart more adds F unmarshal) w
          (λ k key o h. h)
      & kept C L less (delete_calculation_bulk-Keeps C L namespace c apart less removes) w
          (λ k key o h. h)
      & kept C L same (get_all-Keeps C L namespace c apart same Kind.pools _) w refl
      & kept C L same (get_worker_pool_by_name-Keeps C L namespace c apart same) w refl
      & kept C L more (create_worker_pool-Keeps C L namespace c apart more adds) w (λ k key o h. h)
      & kept C L less (delete_worker_pool-Keeps C L namespace c apart less removes) w
          (λ k key o h. h)
      & kept C L more (get_results-Keeps C L namespace c apart more G separate) w (λ k key o h. h)
      & pages w
      & kept C L same (json-Keeps C L namespace c apart same 200 _) w refl
      & tt
