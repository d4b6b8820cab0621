-- ===== src/Cluster/Modify.antt =====
-- The idiom of every handler: under RetryOnConflict, get an object, change it, and update it.
use ccb_operator.Base.{◌≡◌, sym, subst, ◌∙◌, Bool, ◌<>◌, String, some}
use ccb_operator.Go.{Error, Outcome, ok, err, panic, Action, wrapping, ◌>>=◌}
use ccb_operator.Go.Rules.{Ends, Runs, Runs-wrapping, Runs_of_cases, Runs_given, Runs-map, Runs->>=}
use ccb_operator.Api.{Kind, Obj, meta_of}
use ccb_operator.Api.Meta.{ObjectKey}
use ccb_operator.Cluster.{Cluster}
use ccb_operator.Cluster.View.{View, put}
use ccb_operator.Cluster.Laws.{Contract, Retried, settled, gave_up, again, Written}

module _ (C : Cluster) (k : Kind) where
  -- One attempt. The messages are those that wrap a failed get and a failed update.
  unfoldable pub attempt :
      ObjectKey → String → String → (Obj k → Action C.World (Obj k)) → Action C.World (Unit {0})
  attempt key get_message update_message change = do
    o ← wrapping get_message (C.get k key)
    o' ← change o
    wrapping (update_message <> (meta_of k o').name) (C.update k o')

  unfoldable pub modify :
      ObjectKey → String → String → (Obj k → Action C.World (Obj k)) → Action C.World (Unit {0})
  unfolding attempt
  modify key get_message update_message change =
      C.retry_on_conflict (Unit {0}) (attempt key get_message update_message change)

-- Partial correctness of a retried action: `P` holds before every attempt and after a failed one,
-- `Q` after one that succeeded.
module _ {W A : Type 0} {fn : Action W A} {P : W → Type 0} {Q : A → W → Type 0}
    (runs : Runs P fn Q P) where
  Ends-ended : {w w' : W} {r : Outcome A} → fn w ≡ (r, w') → P w → Ends Q P r w'
  Ends-ended {w} e p = subst (λ (x : Outcome A × W). Ends Q P x.0 x.1) e (runs.run w p)

  Ends-Retried :
      (test : Error → Bool) (wait : W → W)
      → ((w : W) → P w → P (wait w))
      → {w w' : W} {r : Outcome A} → Retried test wait fn w r w'
      → P w
      → Ends Q P r w'
  Ends-Retried test wait waits (settled e c) p = Ends-ended e p
  Ends-Retried test wait waits (gave_up e c) p = Ends-ended e p
  Ends-Retried test wait waits (again {w' = v} e c next) p =
      Ends-Retried test wait waits next (waits v (Ends-ended e p))

-- An attempt that succeeds at once is the whole run.
Retried-first :
    {W A : Type 0} (test : Error → Bool) (wait : W → W) (fn : Action W A)
    → {w w' v : W} {r : Outcome A} {a : A} → Retried test wait fn w r v
    → fn w ≡ (ok a, w')
    → (r ≡ ok a) × (v ≡ w')
Retried-first test wait fn (settled e c) h = (cc, cc)
Retried-first test wait fn (gave_up e c) h = absurd (cc)
Retried-first test wait fn (again e c next) h = absurd (cc)

module _ (C : Cluster) (L : Contract C) where
  open L use {view}

  pub Runs-retry :
      {A : Type 0} (P : View → Type 0) {Q : A → C.World → Type 0} {fn : Action C.World A}
      → Runs (λ w. P (view w)) fn Q (λ w. P (view w))
      → Runs (λ w. P (view w)) (C.retry_on_conflict A fn) Q (λ w. P (view w))
  Runs-retry {A} P {fn} runs = record {
    run = λ w p.
        Ends-Retried runs C.is_conflict C.back_off (λ u q. subst P (sym (L.view-back_off u)) q)
          (L.retried A fn w) p;
  }

  pub retry_first :
      {A : Type 0} {a : A} (fn : Action C.World A) (w : C.World)
      → (fn w).0 ≡ ok a
      → C.retry_on_conflict A fn w ≡ fn w
  retry_first {A} fn w h =
      let (r, v) =
        Retried-first C.is_conflict C.back_off fn (L.retried A fn w) (λ i. (h i, (fn w).1)) in
      λ i. ((r ∙ sym h) i, v i)

  module _ (v : View) where
    abbrev pub Same : C.World → Type 0
    Same w = view w ≡ v

    pub Runs-get :
        (k : Kind) (key : ObjectKey)
        → Runs Same (C.get k key) (λ o w. (v k key ≡ some o) × Same w) Same
    Runs-get k key =
        Runs_of_cases
          (λ w o same got. (
            subst (λ u. u k key ≡ some o) same (L.get_stored k key w o got),
            L.view-get k key w ∙ same,
          ))
          (λ w same. L.view-get k key w ∙ same)

    pub Runs-now : Runs Same C.now (λ _. Same) Same
    Runs-now = Runs_of_cases (λ w t same _. L.view-now w ∙ same) (λ w same. L.view-now w ∙ same)

    Ends-Written :
        (after : View) (w : C.World) (r : Outcome (Unit {0}))
        → Written r v after (view w)
        → Ends (λ _ u. view u ≡ after) Same r w
    Ends-Written after w (ok a) h = h
    Ends-Written after w (err e) h = h
    Ends-Written after w (panic s) h = h

    pub Runs-update :
        (k : Kind) (o : Obj k) → Runs Same (C.update k o) (λ _ w. view w ≡ put v k o) Same
    Runs-update k o = record {
      run = λ w same.
          let x = C.update k o w in
          Ends-Written _ x.1 x.0
            (subst (λ u. Written x.0 u (put u k o) (view x.1)) same (L.view-update k o w));
    }

    pub Runs-create :
        (k : Kind) (o : Obj k) → Runs Same (C.create k o) (λ _ w. view w ≡ put v k o) Same
    Runs-create k o = record {
      run = λ w same.
          let x = C.create k o w in
          Ends-Written _ x.1 x.0
            (subst (λ u. Written x.0 u (put u k o) (view x.1)) same (L.view-create k o w));
    }

module _ (C : Cluster) (L : Contract C) (k : Kind) where
  open L use {view}

  -- A change of one object that reads the world and leaves the cluster alone.
  abbrev pub Alters : (Obj k → Action C.World (Obj k)) → (Obj k → Obj k → Type 0) → Type 0
  Alters change R =
      (v : View) (o : Obj k)
      → Runs (Same C L v) (change o) (λ o' w. R o o' × Same C L v w) (Same C L v)

  -- The object at `key` was replaced by one that is so related to it, and nothing else changed.
  abbrev pub Modified : (Obj k → Obj k → Type 0) → ObjectKey → View → View → Type 0
  Modified R key v v' = (o : Obj k) × (o' : Obj k) × (v k key ≡ some o) × R o o' × (v' ≡ put v k o')

  -- One attempt, and so the whole of RetryOnConflict, either replaces the object so or changes
  -- nothing.
  module _ (key : ObjectKey) (get_message update_message : String)
      (change : Obj k → Action C.World (Obj k)) (R : Obj k → Obj k → Type 0)
      (alters : Alters change R) (v : View) where
    Runs-change :
        (o : Obj k)
        → Runs
            (λ w. (v k key ≡ some o) × Same C L v w)
            (change o)
            (λ o' w. (v k key ≡ some o) × R o o' × Same C L v w)
            (Same C L v)
    Runs-change o =
        Runs_given (v k key ≡ some o) (λ w p. p)
          λ found. Runs-map (λ o' w p. (found, p.0, p.1)) (alters v o)

    Runs-attempt :
        Runs
          (Same C L v)
          (attempt C k key get_message update_message change)
          (λ _ w. Modified R key v (view w))
          (Same C L v)
    unfolding attempt
    Runs-attempt = Runs->>= _ _ (Runs-wrapping get_message (Runs-get C L v k key)) λ o.
        Runs->>= _ _ (Runs-change o) λ o'. Runs-wrapping _ (
          Runs_given ((v k key ≡ some o) × R o o') (λ w p. ((p.0, p.1), p.2))
            (λ f. Runs-map (λ _ w e. (o, o', f.0, f.1, e)) (Runs-update C L v k o')))

    pub Runs-modify :
        Runs
          (Same C L v)
          (modify C k key get_message update_message change)
          (λ _ w. Modified R key v (view w))
          (Same C L v)
    unfolding modify
    Runs-modify = Runs-retry C L (λ u. u ≡ v) Runs-attempt
