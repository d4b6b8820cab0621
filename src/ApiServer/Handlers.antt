-- ===== src/ApiServer/Handlers.antt =====
-- What the handlers of the HTTP interface keep of the cluster.
use ccb_operator.Base.{ℕ, ◌<>◌, ◌≡◌, inl, inr, ◌⊎◌, String, Option, none, some}
use ccb_operator.Base.Maps.{Entries}
use ccb_operator.Go.{Error, Action, pure, ◌>>◌}
use ccb_operator.Api.{Kind, Obj, key_of}
use ccb_operator.Api.Calculations.{Calculation, zero_calculation}
use ccb_operator.Cluster.{Cluster}
use ccb_operator.Cluster.View.{View, put, remove}
use ccb_operator.Cluster.Laws.{Contract}
use ccb_operator.Cluster.Keeps.{
  Keeps, Keeps-pure, Keeps-get, Keeps-list, Keeps->>=, Keeps-caught, Keeps-create, Keeps-delete,
  Keeps-fail, Keeps-of_same, Keeps-retry,
}
use ccb_operator.Grpc.{ResultsClient}
use ccb_operator.Util.Formats.{Formats}
use ccb_operator.ApiServer.{
  Context, Unmarshal, Payload, response_error, answered, retrying, report_error, delete_stored,
  get_all, get_by_name, pool_answer, create_calculation_bulk, create_worker_pool,
  delete_calculation_bulk, delete_worker_pool, delete_calculation, get_calculation,
  get_worker_pool_by_name, get_results,
}

-- Answers, and the reading of a request, are apart from the cluster.
pub record Apart (C : Cluster) (L : Contract C) (c : Context C.World) : Type 0 where
  pub json_apart : (s : ℕ) (p : Payload) (w : C.World) → L.view (c.json s p w).1 ≡ L.view w
  pub read_body_apart : (w : C.World) → L.view (c.read_body w).1 ≡ L.view w
  pub bind_json_apart : (w : C.World) → L.view (c.bind_json w).1 ≡ L.view w

module _ (C : Cluster) (L : Contract C) (namespace : String) (c : Context C.World)
    (apart : Apart C L c) (P : View → Type 0) where
  abbrev K : {A : Type 0} → Action C.World A → Type 0
  K m = Keeps C L P m

  pub json-Keeps : (s : ℕ) (p : Payload) → K (c.json s p)
  json-Keeps s p = Keeps-of_same C L P (c.json s p) (apart.json_apart s p)

  response_error-Keeps : (t : String) (e : Option Error) → K (response_error C namespace c t e)
  unfolding response_error
  response_error-Keeps t e = json-Keeps 400 _

  answered-Keeps :
      {A : Type 0} (t : String) (m : Action C.World A) (good : A → Action C.World (Unit {0}))
      → K m
      → ((a : A) → K (good a))
      → K (answered C namespace c t m good)
  answered-Keeps t m good h k =
      Keeps->>= C L P _ _ (Keeps-caught C L P h)
        (elim [ inl e ↦ response_error-Keeps t (some e) | inr a ↦ k a ])

  retrying-Keeps : (fn : Action C.World (Unit {0})) → K fn → K (retrying C namespace c fn)
  unfolding retrying
  retrying-Keeps fn h =
      Keeps->>= C L P _ _ (Keeps-caught C L P (Keeps-retry C L P h))
        (elim [ inl e ↦ json-Keeps 500 _ | inr a ↦ Keeps-pure C L P _ ])

  pub get_all-Keeps : (k : Kind) (t : String) → K (get_all C namespace c k t)
  unfolding get_all
  get_all-Keeps k t = answered-Keeps t _ _ (Keeps-list C L P k) λ os. json-Keeps 200 _

  pub get_by_name-Keeps : (k : Kind) (t : String) → K (get_by_name C namespace c k t)
  unfolding get_by_name
  get_by_name-Keeps k t = answered-Keeps _ _ _ (Keeps-get C L P k _) λ o. json-Keeps 200 _

  pub get_calculation-Keeps : (F : Formats) → K (get_calculation C namespace c F)
  unfolding get_calculation
  get_calculation-Keeps F =
      answered-Keeps _ _ _ (Keeps-list C L P Kind.calculations) λ os. json-Keeps 200 _

  pub get_worker_pool_by_name-Keeps : K (get_worker_pool_by_name C namespace c)
  unfolding get_worker_pool_by_name pool_answer
  get_worker_pool_by_name-Keeps = retrying-Keeps _ (
      Keeps->>= C L P _ _ (Keeps-caught C L P (Keeps-get C L P Kind.pools _)) (elim [
        | inl e ↦ Keeps->>= C L P _ _ (response_error-Keeps _ _) λ _. Keeps-fail C L P e
        | inr pool ↦ json-Keeps 200 _
      ]))

  pub get_results-Keeps :
      (G : ResultsClient C.World)
      → ((q : Entries String) (w : C.World) → L.view (G.get_data q w).1 ≡ L.view w)
      → K (get_results C namespace c G)
  unfolding get_results
  get_results-Keeps G separate =
      Keeps->>= C L P _ _
        (Keeps-caught C L P (Keeps-of_same C L P c.bind_json apart.bind_json_apart))
        (elim [
          | inl e ↦ json-Keeps 400 _
          | inr parameters ↦
              Keeps->>= C L P _ _
                (Keeps-caught C L P
                  (Keeps-of_same C L P (G.get_data parameters) (separate parameters)))
                (elim [ inl e ↦ json-Keeps 500 _ | inr res ↦ json-Keeps 200 _ ])
        ])

  -- The handlers that create, for what may be stored at a key that is free.
  module _
      (adds : (k : Kind) (o : Obj k) (u : View)
        → P u
        → u k (key_of k o) ≡ none
        → P (put u k o)) where
    report_error-Keeps : (t : String) (e : Option Error) → K (report_error C namespace c t e)
    report_error-Keeps t none = Keeps-pure C L P _
    report_error-Keeps t (some e) = response_error-Keeps t (some e)

    pub create_calculation_bulk-Keeps :
        (F : Formats) (unmarshal : Unmarshal)
        → K (create_calculation_bulk C namespace c F unmarshal)
    unfolding create_calculation_bulk
    create_calculation_bulk-Keeps F unmarshal =
        answered-Keeps _ _ _ (Keeps-of_same C L P c.read_body apart.read_body_apart) λ body.
          Keeps->>= C L P _ _ (report_error-Keeps _ _) λ _.
            answered-Keeps _ _ _ (Keeps-create C L P Kind.bulks _ (adds Kind.bulks _))
              λ _. json-Keeps 200 _

    pub create_worker_pool-Keeps : K (create_worker_pool C namespace c)
    unfolding create_worker_pool
    create_worker_pool-Keeps =
        answered-Keeps _ _ _ (Keeps-create C L P Kind.pools _ (adds Kind.pools _)) λ _.
          retrying-Keeps _
            (answered-Keeps _ _ _ (Keeps-get C L P Kind.pools _) λ pool. json-Keeps 200 _)

  -- The handlers that delete.
  module _ (removes : (k : Kind) (o : Obj k) (u : View) → P u → P (remove u k o)) where
    delete_stored-Keeps :
        (k : Kind) (name failed done : String) → K (delete_stored C namespace c k name failed done)
    unfolding delete_stored
    delete_stored-Keeps k name failed done = Keeps->>= C L P _ _ (Keeps-get C L P k _) λ o.
        Keeps->>= C L P _ _ (Keeps-caught C L P (Keeps-delete C L P k o (removes k o))) (elim [
          | inl e ↦ Keeps->>= C L P _ _ (response_error-Keeps _ _) λ _. Keeps-fail C L P e
          | inr _ ↦ json-Keeps 200 _
        ])

    pub delete_calculation_bulk-Keeps : K (delete_calculation_bulk C namespace c)
    unfolding delete_calculation_bulk
    delete_calculation_bulk-Keeps = retrying-Keeps _ (delete_stored-Keeps Kind.bulks _ _ _)

    pub delete_worker_pool-Keeps : K (delete_worker_pool C namespace c)
    unfolding delete_worker_pool
    delete_worker_pool-Keeps = retrying-Keeps _ (delete_stored-Keeps Kind.pools _ _ _)

    pub delete_calculation-Keeps :
        (quote : String → String) → K (delete_calculation C namespace c quote)
    unfolding delete_calculation
    delete_calculation-Keeps quote =
        Keeps->>= C L P _ _ (Keeps-caught C L P (Keeps-get C L P Kind.calculations _)) λ answer.
          Keeps->>= C L P _ _ (found answer) λ calc.
            answered-Keeps _ _ _
              (Keeps-delete C L P Kind.calculations calc (removes Kind.calculations calc))
              λ _. json-Keeps 200 _
      where
        found :
            (answer : Error ⊎ Calculation)
            → K (elim answer [
              | inl e ↦
                  response_error C namespace c
                    ("failed to get calculation " <> c.param "id")
                    (some e)
                  >> pure zero_calculation
              | inr calc ↦ pure calc
            ])
        found (inl e) = Keeps->>= C L P _ _ (response_error-Keeps _ _) λ _. Keeps-pure C L P _
        found (inr calc) = Keeps-pure C L P _
