-- ===== src/Provisioning/Steps/Ready/Observed.antt =====
-- The checks of a provisioning where everything that is observed is healthy: `checkTalosHealth` of
-- internal/workflows/cluster_provision.go and `waitForClusterAPIReady` of capi_change.go.
use talos_app.Prelude.{◌≡◌, refl, String, true, Option, none, some, List, [], ◌∷◌}
use talos_app.Shared.{Uuid, default_page}
use talos_app.Exec.{Exec, ok, ◌>>=◌}
use talos_app.Exec.Triple.{
  Triple, then-Triple, wrapped-Triple, pure-Triple, given-Triple, if-Triple,
}
use talos_app.Domain.Cluster.{Cluster, is_cluster_api}
use talos_app.Domain.GitOps.{GitRepository, GitOpsConfiguration, ChangeSet}
use talos_app.Domain.Machine.{Machine}
use talos_app.Platform.{Platform, World, IsHealthy, call}
use talos_app.Ports.{TalosClient, Secrets}
use talos_app.MachineRepo.Machines.{list_machines, Filter}
use talos_app.Provisioning.Health.{
  all_ready, register_credentials, check_machines, talos_config, talos_health, check_talos_health,
  wait_for_cluster_api_ready,
}
use talos_app.Provisioning.Steps.Ready.Outside.{Cooperates, answers-Triple, returns-Triple}
use talos_app.Provisioning.Steps.Ready.Tables.{Never, With}
use talos_app.Provisioning.{Deps}

module _ {X : Type 0} (id : Uuid) (cfg : GitOpsConfiguration) (repo : GitRepository) (w : World)
    (h : IsHealthy w) (d : Deps X) (Opened : String → String → String → X → Type 0)
    (k : Cooperates d Opened) (changes : List ChangeSet → Type 0) (row : Cluster) where
  abbrev Calm : Platform X → Type 0
  Calm s = With id cfg repo (λ l x. changes l) row s

  -- An action that returns, and leaves the tables.
  abbrev Passes : {A : Type 0} → Exec (Platform X) A → Type 0
  Passes m = Triple Calm (λ a. Calm) Never m

  register_credentials-Passes :
      (t : TalosClient X) (config : Option String) (m : Machine)
      → d.talos ≡ some t
      → Passes (register_credentials t config m)
  unfolding register_credentials
  register_credentials-Passes t none m e = pure-Triple _ (λ s p. p)
  register_credentials-Passes t (some config) m e =
      wrapped-Triple _ _
        (returns-Triple id cfg repo w h changes row _ (λ x. k.registered t _ config x e))

  check_machines-Passes :
      (t : TalosClient X) (config : Option String) (ms : List Machine)
      → d.talos ≡ some t
      → Passes (check_machines t config ms)
  unfolding check_machines
  check_machines-Passes t config [] e = pure-Triple _ (λ s p. p)
  check_machines-Passes t config (m ∷ rest) e =
      then-Triple _ _ (register_credentials-Passes t config m e) (λ _.
        then-Triple _ _
          (wrapped-Triple _ _ (
            answers-Triple id cfg repo w h (λ b. b ≡ true) changes row _
              (λ x. (true, k.healthy t m.management_ip x e, refl))))
          (λ healthy. given-Triple _ (λ b. rw b (check_machines-Passes t config rest e))))

  talos_config-Passes :
      (o : Option (Secrets X)) (c : Cluster) → d.secrets ≡ o → Passes (talos_config o c)
  unfolding talos_config
  talos_config-Passes none c e = pure-Triple _ (λ s p. p)
  talos_config-Passes (some secrets) c e = if-Triple _ _ _ (pure-Triple _ (λ s p. p)) (
      then-Triple _ _
        (wrapped-Triple _ _
          (returns-Triple id cfg repo w h changes row _ (λ x. k.kept secrets _ x e)))
        (λ config. pure-Triple _ (λ s p. p)))

  list_machines-Passes : (f : Filter) → Passes (list_machines w f default_page)
  unfolding list_machines call ◌>>=◌
  list_machines-Passes f = record { leads = λ s p. rw (h s.calls) p }

  talos_health-Passes :
      (o : Option (TalosClient X)) (c : Cluster) → d.talos ≡ o → Passes (talos_health w d o c)
  unfolding talos_health
  talos_health-Passes none c e = pure-Triple _ (λ s p. p)
  talos_health-Passes (some t) c e =
      then-Triple _ _ (wrapped-Triple _ _ (list_machines-Passes _)) (λ machines.
        then-Triple _ _ (talos_config-Passes d.secrets c refl) (λ config.
          then-Triple _ _ (check_machines-Passes t config machines e)
            (λ _. pure-Triple _ (λ s p. p))))

  pub check_talos_health-Passes : (c : Cluster) → Passes (check_talos_health w d c)
  unfolding check_talos_health
  check_talos_health-Passes c =
      if-Triple d.has_machines _ _ (talos_health-Passes d.talos c refl) (pure-Triple _ (λ s p. p))

  pub wait_for_cluster_api_ready-Passes : (c : Cluster) → Passes (wait_for_cluster_api_ready w d c)
  unfolding wait_for_cluster_api_ready
  wait_for_cluster_api_ready-Passes c =
      if-Triple (is_cluster_api c.provider_mode) _ _
        (then-Triple _ _
          (wrapped-Triple _ _ (
            answers-Triple id cfg repo w h (λ l. all_ready l ≡ ok tt) changes row _
              (λ x. k.observed c.name x)))
          (λ l. given-Triple _ (λ e. record { leads = λ s p. rw e p })))
        (pure-Triple _ (λ s p. p))
