-- ===== src/ClusterService/Answers.antt =====
-- What the requests of internal/application/clusterservice/service.go answer, where every call of
-- the database and the broker goes through.
use talos_app.Prelude.{
  ◌≡◌, refl, ◌≢◌, true, false, none, some, [], ◌∷◌, find, String, suc, arith, ==_iff, List, subst,
  sym, Option,
}
use mathlib.Core.Option
use talos_app.Shared.{ref, Uuid, Time, sentinel, precondition_fail, is, touch, wrap, text}
use talos_app.Exec.{err, wrapped, ◌>>=◌}
use talos_app.Domain.Cluster.{
  Cluster, State, draft, planning, provisioning, failed, deleting, can_transition, transition,
}
use talos_app.Domain.Workflow.{Kind}
use talos_app.Platform.{Platform, World, IsHealthy, call}
use talos_app.Platform.Rows.{update_rows}
use talos_app.Platform.Rows.Lookup.{find-satisfies, affects_of_find, find-update_rows}
use talos_app.ClusterRepo
use talos_app.ClusterRepo.{cluster_has_id, set_cluster}
use talos_app.WorkflowRepo.{has_key, get_by_idempotency_key}
use talos_app.Engine.{Engine, lookup, enqueue, enqueue_found, enqueue_run}
use talos_app.ClusterService.{lacks_versions, plan, transition_all, provision, delete}

-- The state of a cluster as the table shows it.
abbrev pub state_of : {X : Type 0} → Uuid → Platform X → Option State
state_of id s = Option.map (λ c. c.state) (find (cluster_has_id id) s.db.clusters)

state_back :
    (id : Uuid) (c c' : Cluster) (now : Time) (rows : List Cluster)
    → find (cluster_has_id id) rows ≡ some c
    → Option.map
        (λ y. y.state)
        (find (cluster_has_id id) (update_rows (cluster_has_id c.id) (set_cluster now c') rows))
      ≡ some c'.state
unfolding set_cluster
state_back id c c' now rows f =
    let same = (==_iff c.id id).0 (find-satisfies (cluster_has_id id) rows c f) in
    subst
      (λ k.
        Option.map (λ y. y.state)
          (find (cluster_has_id id) (update_rows (cluster_has_id k) (set_cluster now c') rows))
        ≡ some c'.state)
      (sym same)
      (rw (find-update_rows (cluster_has_id id) (set_cluster now c') rows c (λ y. refl) f))

module _ {X : Type 0} (w : World) (e : Engine X) (h : IsHealthy w) where
  -- A request to provision a cluster in any state but DRAFT and FAILED, with both versions in its
  -- specification, is refused as a failed precondition, and no table and no message changes: this is
  -- also the answer to a repeated request.
  pub provision_refused :
      (id by : Uuid) (key : String) (c : Cluster) (s : Platform X)
      → find (cluster_has_id id) s.db.clusters ≡ some c
      → lacks_versions c ≡ false
      → c.state ≢ draft
      → c.state ≢ failed
      → let r = provision w e id by key s in
        (r.0 ≡ err (wrap "transitioning cluster to %s" (sentinel precondition_fail)))
        × (r.1.db ≡ s.db)
        × (r.1.dispatches ≡ s.dispatches)
  unfolding provision plan ClusterRepo.get transition_all transition call ◌>>=◌
  provision_refused id by key c s f v d n =
      let no = only_from c.state d n in
      rw (h s.calls, f, h (suc s.calls), f, v, no) (refl, refl, refl)
    where
      only_from : (t : State) → t ≢ draft → t ≢ failed → can_transition t planning ≡ false
      only_from t d n = ground arith

  -- A request to delete a cluster whose state allows it, in a process where no definition of
  -- CLUSTER_DELETE is registered and with an idempotency key that is new: the answer is an error, the
  -- cluster is DELETING from then on, and no run is stored and no message sent.
  pub delete_stuck :
      (id by : Uuid) (key : String) (c : Cluster) (s : Platform X)
      → find (cluster_has_id id) s.db.clusters ≡ some c
      → can_transition c.state deleting ≡ true
      → find (has_key key) s.db.workflows ≡ none
      → lookup Kind.cluster_delete e.registry ≡ none
      → let r = delete w e id by key s in
        (r.0 ≡ err (text "no workflow definition registered for type %s"))
        × (state_of id r.1 ≡ some deleting)
        × (r.1.db.workflows ≡ s.db.workflows)
        × (r.1.dispatches ≡ s.dispatches)
  unfolding delete ClusterRepo.get ClusterRepo.update transition enqueue enqueue_found enqueue_run
      get_by_idempotency_key is set_cluster call ◌>>=◌
  delete_stuck id by key c s f t n l =
      let same = (==_iff c.id id).0 (find-satisfies (cluster_has_id id) s.db.clusters c f) in
      let old = subst (λ k. find (cluster_has_id k) s.db.clusters ≡ some c) (sym same) f in
      let a = affects_of_find (cluster_has_id c.id) s.db.clusters c old in
      rw (h s.calls, f, t, h (suc (suc (suc s.calls))), a, h (suc (suc (suc (suc s.calls)))), n, l)
        (
          refl,
          state_back id c
              (record c {
                state = deleting;
                timestamps = touch (w.time (suc s.calls)) c.timestamps;
              })
              _ s.db.clusters f,
          refl,
          refl,
        )

  -- A request to provision a cluster that is DRAFT or FAILED, with both versions in its
  -- specification, first stores the cluster as PROVISIONING, touching neither the runs nor the
  -- messages, and then answers what `Enqueue` answers in that state, its error wrapped.
  pub provision_accepted :
      (id by : Uuid) (key : String) (c : Cluster) (s : Platform X)
      → find (cluster_has_id id) s.db.clusters ≡ some c
      → lacks_versions c ≡ false
      → can_transition c.state planning ≡ true
      → (s' : Platform X) × (state_of id s' ≡ some provisioning)
        × (s'.db.workflows ≡ s.db.workflows)
        × (s'.dispatches ≡ s.dispatches)
        × (provision w e id by key s
            ≡ wrapped "enqueuing provisioning workflow"
                (enqueue w e Kind.cluster_provision key
                  (("clusterId", ref c.id) ∷ [])
                  (some c.id)
                  none
                  by)
                s')
  unfolding provision plan ClusterRepo.get ClusterRepo.update transition_all transition set_cluster
      call ◌>>=◌
  provision_accepted id by key c s f v t =
      let same = (==_iff c.id id).0 (find-satisfies (cluster_has_id id) s.db.clusters c f) in
      let old = subst (λ k. find (cluster_has_id k) s.db.clusters ≡ some c) (sym same) f in
      let a = affects_of_find (cluster_has_id c.id) s.db.clusters c old in
      let t2 = suc (suc s.calls) in
      let t5 = suc (suc (suc t2)) in
      let last =
        touch (w.time (suc (suc t2))) (touch (w.time (suc t2)) (touch (w.time t2) c.timestamps)) in
      let c' = record c { state = provisioning; timestamps = last } in
      (
        record s {
          db = record s.db {
            clusters = update_rows (cluster_has_id c.id) (set_cluster (w.time t5) c') s.db.clusters;
          };
          calls = suc (suc t5);
        },
        state_back id c c' _ s.db.clusters f,
        refl,
        refl,
        rw (h s.calls, f, h (suc s.calls), f, v, t, h (suc t5), a) refl,
      )
