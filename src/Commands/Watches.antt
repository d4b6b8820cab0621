-- ===== src/Commands/Watches.antt =====
-- What the dispatcher's manager watches.
use ccb_operator.Base.{◌≡◌, ◌∙◌, ap, String, List, [], ◌∷◌, ◌++◌}
use mathlib.Core.List.{append_assoc}
use ccb_operator.Go.{ok, Action}
use ccb_operator.Go.Rules.{Runs->>=, Runs-wrapping, Runs-pure, Runs_of_cases}
use ccb_operator.Api.{Kind}
use ccb_operator.Grpc.{new_client}
use ccb_operator.Setup.{Setup, load_cluster_config, add_controller}
use ccb_operator.Setup.Rules.{Ensures, Ensures-or_fatal, Ensures-unless_error}
use ccb_operator.Commands.Dispatcher.{
  Options, add_bulks, add_factory, add_workers, add_calculations, set_up,
}

-- A controller by its name, and the kind that it watches.
abbrev pub Watched : Type 0
Watched = List (String × Kind)

-- Only Watch adds to what is watched.
pub record Watching {W Config Credentials : Type 0} (S : Setup W Config Credentials) : Type 0 where
  pub watched : W → Watched
  pub watched-load : (w : W) → watched (load_cluster_config S w).1 ≡ watched w
  pub watched-new_manager :
      (c : Config) (n : String) (w : W) → watched (S.new_manager c n w).1 ≡ watched w
  pub watched-add_to_scheme : (v : String) (w : W) → watched (S.add_to_scheme v w).1 ≡ watched w
  pub watched-new_controller : (n : String) (w : W) → watched (S.new_controller n w).1 ≡ watched w
  pub watched-index_field : (f : String) (w : W) → watched (S.index_field f w).1 ≡ watched w
  pub watched-dial : (a : String) (w : W) → watched (S.dial a w).1 ≡ watched w
  pub watched-watch :
      (n : String) (k : Kind) (w : W)
      → (S.watch n k w).0 ≡ ok tt
      → watched (S.watch n k w).1 ≡ watched w ++ ((n, k) ∷ [])

module _ {W Config Credentials : Type 0} (S : Setup W Config Credentials) (T : Watching S) where
  -- From what is watched before to what is watched behind.
  abbrev From : {A : Type 0} → Watched → Action W A → Watched → Type 0
  From before m after = Ensures (λ w. T.watched w ≡ before) m (λ _ w. T.watched w ≡ after)

  From-same :
      {A : Type 0} (l : Watched) (m : Action W A)
      → ((w : W) → T.watched (m w).1 ≡ T.watched w)
      → From l m l
  From-same l m same = Runs_of_cases (λ w a h _. same w ∙ h) (λ w h. tt)

  From-watch :
      (l : Watched) (name : String) (k : Kind) → From l (S.watch name k) (l ++ ((name, k) ∷ []))
  From-watch l name k =
      Runs_of_cases
        (λ w a h done. T.watched-watch name k w done ∙ ap (λ x. x ++ ((name, k) ∷ [])) h)
        (λ w h. tt)

  From-controller :
      (l : Watched) (name : String) (k : Kind)
      → From l (add_controller S name k) (l ++ ((name, k) ∷ []))
  unfolding add_controller
  From-controller l name k =
      Runs->>= _ _
        (Runs-wrapping _ (From-same l (S.new_controller name) (T.watched-new_controller name)))
        λ _. Runs-wrapping _ (From-watch l name k)

  From-client :
      (o : Options) (l : Watched)
      → From l (new_client S.dial S.code_not_found o.grpc_client_options.address) l
  unfolding new_client
  From-client o l =
      Runs->>= _ _
        (From-same l (S.dial o.grpc_client_options.address)
          (T.watched-dial o.grpc_client_options.address))
        λ connection. Runs-pure _ λ w h. h

  From-calculations :
      (l : Watched) → From l (add_calculations S) (l ++ (("calculations", Kind.calculations) ∷ []))
  unfolding add_calculations
  From-calculations l =
      Runs->>= _ _
        (Runs-wrapping _
          (From-same l (S.new_controller "calculations") (T.watched-new_controller "calculations")))
        λ _.
          Runs->>= _ _
            (Ensures-unless_error _
              (From-same l (S.index_field "phase") (T.watched-index_field "phase")))
            λ _. Runs-wrapping _ (From-watch l "calculations" Kind.calculations)

  -- If the dispatcher has set itself up, then it watches, beyond what was watched before, the
  -- calculations, the pods, the bulks and the factories, each by one controller.
  pub set_up-Watched :
      (o : Options) (l : Watched)
      → Ensures
          (λ w. T.watched w ≡ l)
          (set_up S o)
          (λ _ w.
            T.watched w
            ≡ l
              ++ (("calculations", Kind.calculations)
                  ∷ ("worker_pods", Kind.pods)
                  ∷ ("bulks", Kind.bulks)
                  ∷ ("factory", Kind.factories)
                  ∷ []))
  unfolding set_up add_workers add_bulks add_factory
  set_up-Watched o l =
      Runs->>= _ _ (Ensures-or_fatal _ (From-same l (load_cluster_config S) T.watched-load))
        λ config.
          Runs->>= _ _
            (Ensures-or_fatal _ (
              From-same l (S.new_manager config o.namespace)
                (T.watched-new_manager config o.namespace)))
            λ _.
              Runs->>= _ _
                (Ensures-or_fatal _
                  (From-same l (S.add_to_scheme "calculations/v1") (T.watched-add_to_scheme _)))
                λ _.
                  Runs->>= _ _
                    (Ensures-or_fatal _
                      (From-same l (S.add_to_scheme "core/v1") (T.watched-add_to_scheme _)))
                    λ _. Runs->>= _ _ (Ensures-or_fatal _ (From-calculations l)) λ _.
                      Runs->>= _ _ (Ensures-or_fatal _ (From-controller _ "worker_pods" Kind.pods))
                        λ _. Runs->>= _ _ (Ensures-or_fatal _ (From-client o _)) λ client.
                          Runs->>= _ _ (Ensures-or_fatal _ (From-controller _ "bulks" Kind.bulks))
                            λ _.
                              Runs->>= _ _
                                (Ensures-or_fatal _ (From-controller _ "factory" Kind.factories))
                                λ _. Runs-pure _ λ w h. h ∙ joined
    where
      joined :
          (((l ++ (("calculations", Kind.calculations) ∷ [])) ++ (("worker_pods", Kind.pods) ∷ []))
              ++ (("bulks", Kind.bulks) ∷ []))
            ++ (("factory", Kind.factories) ∷ [])
          ≡ l
            ++ (("calculations", Kind.calculations)
                ∷ ("worker_pods", Kind.pods)
                ∷ ("bulks", Kind.bulks)
                ∷ ("factory", Kind.factories)
                ∷ [])
      joined = simp append_assoc
