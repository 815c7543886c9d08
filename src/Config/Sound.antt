-- ===== src/Config/Sound.antt =====
-- What holds of a configuration that internal/infrastructure/config/config.go loads.
use talos_app.Prelude.{◌≡◌, false, ◌⊎◌}
use talos_app.Config.{Config, lacks}

-- Every mode is one of the two that it may be, and the one that needs credentials has them.
pub record IsSound (c : Config) : Type 0 where
  pub auth : (c.auth.mode ≡ "dev") ⊎ (c.auth.mode ≡ "oidc")
  pub oidc :
      c.auth.mode ≡ "oidc"
      → (lacks c.auth.oidc_issuer ≡ false) × (lacks c.auth.oidc_client_id ≡ false)
  pub talos : (c.talos_adapter_mode ≡ "mock") ⊎ (c.talos_adapter_mode ≡ "real")
  pub talos_real : c.talos_adapter_mode ≡ "real" → lacks c.talos_config_file ≡ false
  pub github : (c.github_adapter_mode ≡ "mock") ⊎ (c.github_adapter_mode ≡ "real")
  pub github_real : c.github_adapter_mode ≡ "real" → lacks c.github_token ≡ false
  pub argocd : (c.argocd_adapter_mode ≡ "mock") ⊎ (c.argocd_adapter_mode ≡ "real")
  pub argocd_real :
      c.argocd_adapter_mode ≡ "real"
      → (lacks c.argocd_server_url ≡ false) × (lacks c.argocd_token ≡ false)
  pub cluster_api : (c.cluster_api_adapter_mode ≡ "mock") ⊎ (c.cluster_api_adapter_mode ≡ "real")
  pub cluster_api_real :
      c.cluster_api_adapter_mode ≡ "real" → lacks c.cluster_api_kubeconfig_file ≡ false
  pub secrets : (c.secret_store_backend ≡ "local") ⊎ (c.secret_store_backend ≡ "vault")
  pub vault :
      c.secret_store_backend ≡ "vault"
      → (lacks c.vault_addr ≡ false)
        × ((lacks c.vault_token ≡ false) × (lacks c.vault_mount ≡ false))
