-- ===== src/Scenarios/Requests.antt =====
-- A request for a provisioning, from the call to the end of its run.
use talos_app.Prelude.{◌≡◌, refl, some, none, [], ◌∷◌, find, arith, length, true, suc}
use talos_app.Exec.{ok}
use talos_app.Domain.Cluster.{Cluster, provisioning, ready}
use talos_app.Domain.Workflow.{Kind}
use talos_app.ClusterRepo.{cluster_has_id}
use talos_app.Platform.{Platform}
use talos_app.Platform.Rows.{affects}
use talos_app.Engine.{Engine, enqueue, lookup}
use talos_app.Engine.Consume.{consume}
use talos_app.Engine.Progress.{IsCompleted, consume-completes}
use talos_app.Engine.Execute.Settle.{aside}
use talos_app.Engine.Inserted.{IsFresh}
use talos_app.Engine.Accepted.{stored_run, accepted, accepted-Stage, request_completes}
use talos_app.Provisioning.Steps.{provision_definition}
use talos_app.Provisioning.Steps.Ready.Tables.{Fit}
use talos_app.Provisioning.Steps.Ready.Request.{
  Reached, provision-Succeeds, provisioning_run, provision_request_ends_ready,
}
use talos_app.Scenarios.{healthy, healthy-IsHealthy}
use talos_app.Scenarios.Clusters.{a_cluster}
use talos_app.Scenarios.Provisions.{
  deps_in, configured, a_configuration, a_repository, ItsUrl, merges_at_once,
}

abbrev asked : Platform (Unit {0})
asked = configured provisioning

-- The engine with the provisioning of the program.
abbrev programmed : Engine (Unit {0})
programmed = record {
  registry = provision_definition healthy (deps_in "merged") ∷ [];
  audited = true;
}

asked-IsFresh : IsFresh healthy asked
unfolding affects
asked-IsFresh = record {
  nonzero = λ n. ground arith;
  distinct = λ m n h. ground arith;
  unused_run = λ n. refl;
  unused_step = λ n st i. elim i [ ];
  unowned = λ n st i. elim i [ ];
}

registered :
    lookup Kind.cluster_provision programmed.registry
    ≡ some (provision_definition healthy (deps_in "merged"))
unfolding lookup provision_definition
registered = refl

a_cluster-Fit : Fit (a_cluster provisioning)
a_cluster-Fit = record { versions = refl; site = refl; cidrs = refl }

-- Where the first step of the provisioning begins.
begins :
    Reached 5 a_configuration a_repository healthy healthy-IsHealthy
      (deps_in "merged")
      ItsUrl
      merges_at_once
      0
      (aside asked)
unfolding find affects
begins = (
  a_cluster provisioning,
  refl,
  a_cluster-Fit,
  record { found = refl; configured = refl; stored = refl; history = λ n. refl },
)

provision_request_ends_ready_example :
    let run =
      provisioning_run 5 a_configuration a_repository healthy healthy-IsHealthy
        (deps_in "merged")
        ItsUrl
        merges_at_once
        programmed
        "key"
        []
        none
        1
        asked in
    let r = enqueue healthy programmed Kind.cluster_provision "key" [] (some 5) none 1 asked in
    let s' = consume healthy programmed 16 r.1 in
    (r.0 ≡ ok run)
    × IsCompleted run.id s'
    × ((row' : Cluster) × (find (cluster_has_id 5) s'.db.clusters ≡ some row')
        × (row'.state ≡ ready))
provision_request_ends_ready_example =
    provision_request_ends_ready 5 a_configuration a_repository healthy healthy-IsHealthy
      (deps_in "merged") ItsUrl merges_at_once programmed "key" [] none 1 (a_cluster provisioning)
      asked asked-IsFresh tt refl (unfold find in refl) (unfold affects in refl) registered
      (unfold find in refl) refl a_cluster-Fit (unfold find in refl) (unfold find in refl)
      (unfold affects in λ n. refl)

request_completes_example :
    let def = provision_definition healthy (deps_in "merged") in
    let run =
      stored_run healthy programmed healthy-IsHealthy Kind.cluster_provision "key" []
        (some 5)
        none
        1
        def
        asked in
    let r = enqueue healthy programmed Kind.cluster_provision "key" [] (some 5) none 1 asked in
    let s' = consume healthy programmed (suc (length def.steps)) r.1 in
    (r.0 ≡ ok run)
    × IsCompleted run.id s'
    × Reached 5 a_configuration a_repository healthy healthy-IsHealthy
        (deps_in "merged")
        ItsUrl
        merges_at_once
        (length def.steps)
        (aside s')
request_completes_example =
    request_completes healthy programmed healthy-IsHealthy Kind.cluster_provision "key" [] (some 5)
      none 1 (provision_definition healthy (deps_in "merged")) asked
      (Reached 5 a_configuration a_repository healthy healthy-IsHealthy (deps_in "merged") ItsUrl
        merges_at_once)
      asked-IsFresh tt refl (unfold find in refl) (unfold affects in refl) registered
      (provision-Succeeds 5 a_configuration a_repository healthy healthy-IsHealthy
        (deps_in "merged") ItsUrl merges_at_once)
      begins

-- The platform once the request is accepted, fifteen steps from the end.
abbrev begun : Platform (Unit {0})
begun =
    accepted healthy programmed healthy-IsHealthy Kind.cluster_provision "key" [] (some 5) none 1
      (provision_definition healthy (deps_in "merged")) asked

consume-completes_example :
    let def = provision_definition healthy (deps_in "merged") in
    let s' = consume healthy programmed (suc (length def.steps)) begun in
    IsCompleted 101 s'
    × Reached 5 a_configuration a_repository healthy healthy-IsHealthy
        (deps_in "merged")
        ItsUrl
        merges_at_once
        (length def.steps)
        (aside s')
consume-completes_example =
    consume-completes healthy programmed healthy-IsHealthy
      (provision_definition healthy (deps_in "merged"))
      (Reached 5 a_configuration a_repository healthy healthy-IsHealthy (deps_in "merged") ItsUrl
        merges_at_once)
      (some 5) 101
      (provision-Succeeds 5 a_configuration a_repository healthy healthy-IsHealthy
        (deps_in "merged") ItsUrl merges_at_once)
      0 (length (provision_definition healthy (deps_in "merged")).steps) begun refl
      (accepted-Stage healthy programmed healthy-IsHealthy Kind.cluster_provision "key" [] (some 5)
        none 1 (provision_definition healthy (deps_in "merged")) asked asked-IsFresh registered tt)
      begins
