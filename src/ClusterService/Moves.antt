-- ===== src/ClusterService/Moves.antt =====
-- What the requests of internal/application/clusterservice/service.go do to the table of clusters.
use talos_app.Prelude.{◌≡◌, refl, ◌∙◌, subst, Option, none, some, List, [], ◌∷◌, inl, String, ℕ}
use talos_app.Shared.{Uuid, JsonMap}
use talos_app.Exec.{Exec, Result, ok, err}
use talos_app.Exec.Frame.{IsFixed, then-IsFixed, if-IsFixed, raise-IsFixed, pure-IsFixed}
use talos_app.Exec.Triple.{
  After, Triple, then-Triple, wrapped-Triple, raise-Triple, if-Triple, fixed-Triple,
}
use talos_app.Domain.Cluster.{
  Cluster, WorkerPoolSpec, State, planning, validating, provisioning, deleting,
}
use talos_app.Domain.Cluster.Lifecycle.{Walk}
use talos_app.Platform.{Platform, World, clock}
use talos_app.Engine.Frame.{enqueue-IsFixed}
use talos_app.Domain.Workflow.{Kind}
use talos_app.Platform.Calls.{call-IsFixed, clock-IsFixed}
use talos_app.ClusterRepo
use talos_app.ClusterRepo.{cluster_has_id, set_cluster}
use talos_app.Engine.{Engine, enqueue, dispatch}
use talos_app.ClusterService.{
  lacks_versions, plan, provision, delete, upgrade, retarget, scale_found, scale_workers,
}
use talos_app.ClusterService.Held.{
  Moved, Held, Before, HeldIn, Settled, get-Triple, unwritten, transition-Triple,
  transition_all-Triple, update-Triple,
}

-- The states that a request for provisioning, or for deleting, goes through.
abbrev pub forward : List State
forward = planning ∷ validating ∷ provisioning ∷ []

abbrev pub away : List State
away = deleting ∷ []

module _ {X : Type 0} (w : World) (path : List State) (id : Uuid) (rows : List Cluster)
    (e : Engine X) where
  unsent : (k : Uuid) → IsFixed (λ s. s.db.clusters) (dispatch w e k)
  unfolding dispatch
  unsent k = call-IsFixed (λ s. s.db.clusters) (λ s. refl) w _ (record { fixed = λ s. refl })

  enqueue-Triple :
      (kind : Kind) (key : String) (input : JsonMap) (cluster : Option Uuid) (by : Uuid)
      → Triple
          (Settled w path id rows)
          (λ a. (Settled w path id rows))
          (Settled w path id rows)
          (enqueue w e kind key input cluster none by)
  enqueue-Triple kind key input cluster by =
      fixed-Triple (λ s. s.db.clusters) (Moved path id rows) _
        (enqueue-IsFixed (λ s. s.db.clusters) (λ s. refl) (λ s ws ss. refl) w e kind key input
          cluster none by unsent)

module _ {X : Type 0} (w : World) (id : Uuid) where
  plan-IsFixed : IsFixed (λ s. s.db.clusters) (plan {X = X} w id)
  unfolding plan ClusterRepo.get
  plan-IsFixed =
      then-IsFixed (λ s. s.db.clusters) _ _
        (call-IsFixed (λ s. s.db.clusters) (λ s. refl) w _ (record { fixed = λ s. refl }))
        (λ c.
          if-IsFixed (λ s. s.db.clusters) (lacks_versions c) _ _ (raise-IsFixed _ _)
            (pure-IsFixed _ _))

module _ {X : Type 0} (w : World) (id : Uuid) (rows : List Cluster) (e : Engine X) where
  provision-Triple :
      (by : Uuid) (key : String)
      → Triple
          (Before w forward id rows)
          (λ a. (Settled w forward id rows))
          (Settled w forward id rows)
          (provision w e id by key)
  unfolding provision
  provision-Triple by key = then-Triple _ _ (get-Triple w forward id rows) (λ c.
      then-Triple _ _
        (wrapped-Triple _ _ (unwritten w forward id rows forward (plan w id) c (plan-IsFixed w id)))
        (λ _. then-Triple _ _ (transition_all-Triple w forward id rows _ c) (λ moved.
          then-Triple _ _ (wrapped-Triple _ _ (update-Triple w forward id rows moved))
            (λ _. wrapped-Triple _ _ (enqueue-Triple w forward id rows e _ key _ _ by)))))

  delete-Triple :
      (by : Uuid) (key : String)
      → Triple
          (Before w away id rows)
          (λ a. (Settled w away id rows))
          (Settled w away id rows)
          (delete w e id by key)
  unfolding delete
  delete-Triple by key = then-Triple _ _ (get-Triple w away id rows) (λ c.
      then-Triple _ _
        (unwritten w away id rows away (clock w) c
          (clock-IsFixed (λ s. s.db.clusters) (λ s. refl) w))
        (λ now.
          then-Triple _ _ (wrapped-Triple _ _ (transition-Triple w away id rows [] now deleting c))
            (λ moved.
              then-Triple _ _ (wrapped-Triple _ _ (update-Triple w away id rows moved))
                (λ _. enqueue-Triple w away id rows e _ key _ _ by))))

  -- A handler's cluster with another specification.
  respecified :
      {A : Type 0} (rest : List State) {done : A → Platform X → Type 0} (c c' : Cluster)
      (m : Exec (Platform X) A)
      → c'.id ≡ c.id
      → c'.state ≡ c.state
      → Triple (HeldIn w [] id rows rest c') done (Settled w [] id rows) m
      → Triple (HeldIn w [] id rows rest c) done (Settled w [] id rows) m
  respecified rest c c' m i t k = record { leads = λ s h. k.leads s (h.0, again h.1) }
    where
      again : Held [] rest id rows c → Held [] rest id rows c'
      again h = record {
        old = h.old;
        found = h.found;
        same = i ∙ h.same;
        onward = λ {t = u} k. h.onward (subst (λ x. Walk x rest u) t k);
      }

  upgrade-Triple :
      (by : Uuid) (key kubernetes talos : String)
      → Triple
          (Before w [] id rows)
          (λ a. (Settled w [] id rows))
          (Settled w [] id rows)
          (upgrade w e id by key kubernetes talos)
  unfolding upgrade retarget
  upgrade-Triple by key kubernetes talos = then-Triple _ _ (get-Triple w [] id rows) (λ c.
      if-Triple _ _ _ (raise-Triple _ (λ s h. inl h.0)) (
        respecified [] c (retarget kubernetes talos c) _ refl refl (
          then-Triple _ _
            (wrapped-Triple _ _ (update-Triple w [] id rows (retarget kubernetes talos c)))
            (λ _. enqueue-Triple w [] id rows e _ key _ _ by))))

  scale_found-Triple :
      (pools : Option (List WorkerPoolSpec)) (c : Cluster) (by : Uuid) (key pool : String) (n : ℕ)
      → Triple
          (HeldIn w [] id rows [] c)
          (λ a. (Settled w [] id rows))
          (Settled w [] id rows)
          (scale_found w e pools c by key pool n)
  unfolding scale_found
  scale_found-Triple none c by key pool n = raise-Triple _ (λ s h. inl h.0)
  scale_found-Triple (some pools) c by key pool n =
      let c' = record c { spec = record c.spec { workers = pools } } in
      respecified [] c c' _ refl refl (
        then-Triple _ _ (wrapped-Triple _ _ (update-Triple w [] id rows c'))
          (λ _. enqueue-Triple w [] id rows e _ key _ _ by))

  scale_workers-Triple :
      (by : Uuid) (key pool : String) (n : ℕ)
      → Triple
          (Before w [] id rows)
          (λ a. (Settled w [] id rows))
          (Settled w [] id rows)
          (scale_workers w e id by key pool n)
  unfolding scale_workers
  scale_workers-Triple by key pool n =
      then-Triple _ _ (get-Triple w [] id rows) (λ c. scale_found-Triple _ c by key pool n)

module _ {X : Type 0} (w : World) (e : Engine X) where
  settled :
      {A : Type 0} (held : Platform X → Type 0) (r : Result A) (s : Platform X)
      → After (λ a. held) held r s
      → held s
  settled held (ok a) s h = h
  settled held (err x) s h = h

  -- Whatever calls fail and whatever the request answers, provisioning, deleting, upgrading and
  -- scaling a cluster leave the table of clusters as it was, or write the row of that cluster once
  -- and no other. Provisioning writes it PROVISIONING, where the transition table allows PLANNING
  -- after the state it had, VALIDATING after that and PROVISIONING after that; deleting writes it
  -- DELETING, where the table allows DELETING after the state it had; upgrading and scaling write it
  -- with the state it had.
  pub requests_follow_table :
      (id by : Uuid) (key kubernetes talos pool : String) (n : ℕ) (s : Platform X)
      → Moved forward id s.db.clusters (provision w e id by key s).1.db.clusters
        × Moved away id s.db.clusters (delete w e id by key s).1.db.clusters
        × Moved [] id s.db.clusters (upgrade w e id by key kubernetes talos s).1.db.clusters
        × Moved [] id s.db.clusters (scale_workers w e id by key pool n s).1.db.clusters
  requests_follow_table id by key kubernetes talos pool n s =
      let held : List State → Platform X → Type 0 =
        λ path y. Moved path id s.db.clusters y.db.clusters in
      (
        settled (held forward) (provision w e id by key s).0 _
            ((provision-Triple w id s.db.clusters e by key).leads s refl),
        settled (held away) (delete w e id by key s).0 _
            ((delete-Triple w id s.db.clusters e by key).leads s refl),
        settled (held []) (upgrade w e id by key kubernetes talos s).0 _
            ((upgrade-Triple w id s.db.clusters e by key kubernetes talos).leads s refl),
        settled (held []) (scale_workers w e id by key pool n s).0 _
            ((scale_workers-Triple w id s.db.clusters e by key pool n).leads s refl),
      )
