-- ===== src/ApiServer/Twice.antt =====
-- GET of a worker pool that cannot be read.
use ccb_operator.Base.{
  ℕ, ◌≡◌, refl, subst, ◌∙◌, ap, false, Bool, String, ◌<>◌, List, [], ◌∷◌, ◌++◌, inl, inr, some,
}
use ccb_operator.Go.{
  Error, Outcome, ok, err, panic, Action, resume, caught, caught_outcome, ◌>>=◌, pure,
}
use ccb_operator.Go.Rules.{Ends}
use ccb_operator.Api.{Kind, Obj}
use ccb_operator.Cluster.{Cluster}
use ccb_operator.Cluster.Laws.{Contract, Retried, settled, gave_up, again}
use ccb_operator.ApiServer.{
  Context, pool_answer, response_error, status_code, message, message_error, retrying, key,
  get_worker_pool_by_name,
}
use ccb_operator.ApiServer.Answers.{Answering}

-- An attempt that ends with an error that is no conflict is the only one.
Retried-single :
    {W A : Type 0} (test : Error → Bool) (wait : W → W) (fn : Action W A) (e : Error) {w w' v : W}
    {r : Outcome A}
    → Retried test wait fn w r v
    → fn w ≡ (err e, w')
    → test e ≡ false
    → (r ≡ err e) × (v ≡ w')
Retried-single test wait fn e (settled h c) f other = (cc (h, f), cc (h, f))
Retried-single test wait fn e (gave_up h c) f other = absurd (cc (h, f, c, other))
Retried-single test wait fn e (again h c next) f other = absurd (cc (h, f, c, other))

module _ (C : Cluster) (L : Contract C) (namespace : String) (c : Context C.World)
    (A : Answering C c) where
  -- A failure that is answered with 400 and returned.
  abbrev Refused : Error → List ℕ → Outcome (Unit {0}) × C.World → Type 0
  Refused e s y = (y.0 ≡ err e) × (A.statuses y.1 ≡ s ++ (400 ∷ []))

  Refused-after :
      (e : Error) (s : List ℕ) (x : Outcome (Unit {0}) × C.World)
      → x.0 ≡ ok tt
      → A.statuses x.1 ≡ s ++ (400 ∷ [])
      → Refused e s (resume x.0 x.1 (λ _ u. (err e, u)))
  Refused-after e s (ok _, u) h sent = (refl, sent)
  Refused-after e s (err d, u) h sent = absurd (cc h)
  Refused-after e s (panic m, u) h sent = absurd (cc h)

  failed_get :
      (name : String) (e : Error) (x : Outcome (Obj Kind.pools) × C.World)
      → x.0 ≡ err e
      → Refused e
          (A.statuses x.1)
          (resume (caught_outcome x.0) x.1 (pool_answer C namespace c name))
  unfolding pool_answer response_error
  failed_get name e (ok o, u) h = absurd (cc h)
  failed_get name e (panic m, u) h = absurd (cc h)
  failed_get name e (err d, u) h =
      let text_sent = "failed to get the workerpool " <> name in
      let sent = c.json 400 (message_error text_sent (some d) (status_code C (some d))) u in
      subst (λ z. Refused z (A.statuses u) (resume sent.0 sent.1 (λ _ x. (err d, x))))
        (error_of d e (err d) refl h)
        (Refused-after d (A.statuses u) sent (A.json_ok 400 _ u) (A.statuses-json 400 _ u))
    where
      error_of : (d e : Error) (x : Outcome (Obj Kind.pools)) → x ≡ err d → x ≡ err e → d ≡ e
      error_of d e x g h = cc (g, h)

  answered_500 :
      (e : Error) (x : Outcome (Unit {0}) × C.World) (l : List ℕ)
      → x.0 ≡ err e
      → A.statuses x.1 ≡ l
      → let y =
          resume
            (caught_outcome x.0)
            x.1
            (elim [ inl d ↦ c.json 500 (message "500" 500) | inr _ ↦ pure tt ]) in
        (y.0 ≡ ok tt) × (A.statuses y.1 ≡ l ++ (500 ∷ []))
  answered_500 e (ok _, u) l h sent = absurd (cc h)
  answered_500 e (panic m, u) l h sent = absurd (cc h)
  answered_500 e (err d, u) l h sent = (
    A.json_ok 500 (message "500" 500) u,
    A.statuses-json 500 (message "500" 500) u ∙ ap (λ z. z ++ (500 ∷ [])) sent,
  )

  statuses_after_get :
      (e : Error) (l : List ℕ) (x : Outcome (Obj Kind.pools) × C.World)
      → x.0 ≡ err e
      → Ends (λ _ u. A.statuses u ≡ l) (λ _. ⊥) (caught_outcome x.0) x.1
      → A.statuses x.1 ≡ l
  statuses_after_get e l (ok o, u) h sent = absurd (cc h)
  statuses_after_get e l (err d, u) h sent = sent
  statuses_after_get e l (panic m, u) h sent = absurd (cc h)

  twice :
      (w : C.World) (e : Error)
      → (C.get Kind.pools (key C namespace c (c.param "id")) w).0 ≡ err e
      → C.is_conflict e ≡ false
      → let y = get_worker_pool_by_name C namespace c w in
        (y.0 ≡ ok tt) × (A.statuses y.1 ≡ (A.statuses w ++ (400 ∷ [])) ++ (500 ∷ []))
  unfolding get_worker_pool_by_name retrying
  twice w e h other =
      let name = c.param "id" in
      let got = C.get Kind.pools (key C namespace c name) w in
      let (refused, sent) = failed_get name e got h in
      let fn : Action C.World (Unit {0}) =
        caught (C.get Kind.pools (key C namespace c name)) >>= pool_answer C namespace c name in
      let (r, v) =
        Retried-single C.is_conflict C.back_off fn e (L.retried (Unit {0}) fn w)
          (λ i. (refused i, (fn w).1)) other in
      answered_500 e (C.retry_on_conflict (Unit {0}) fn w) _ r (
        ap A.statuses v
        ∙ sent
        ∙ ap (λ z. z ++ (400 ∷ []))
            (statuses_after_get e (A.statuses w) got h
              (A.get_calm Kind.pools (key C namespace c name) w)))

-- If reads of the cluster do not panic and do not answer: when the read of a worker pool fails with
-- an error that is no conflict, then the request for that pool is answered twice, with status 400
-- and then with status 500.
pub get_worker_pool_by_name_twice :
    (C : Cluster) (L : Contract C) (namespace : String) (c : Context C.World) (A : Answering C c)
    (w : C.World) (e : Error)
    → (C.get Kind.pools (key C namespace c (c.param "id")) w).0 ≡ err e
    → C.is_conflict e ≡ false
    → ((get_worker_pool_by_name C namespace c w).0 ≡ ok tt)
      × (A.statuses (get_worker_pool_by_name C namespace c w).1
          ≡ (A.statuses w ++ (400 ∷ [])) ++ (500 ∷ []))
get_worker_pool_by_name_twice C L namespace c A w e h other = twice C L namespace c A w e h other
