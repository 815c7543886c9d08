-- ===== src/Domain/Cluster.antt =====
-- internal/domain/cluster/cluster.go: the desired configuration of a cluster and its lifecycle.
pub mod Lifecycle
use talos_app.Prelude.{ℕ, String, Bool, true, false, Option, List, [], ◌∷◌, ◌==◌, if◌then◌else◌}
use talos_app.Shared.{Uuid, Time, Timestamps, touch, sentinel, precondition_fail}
use talos_app.Exec.{Result, ok, err}

pub data ProviderMode : Type 0 where
  direct_talos cluster_api : ProviderMode

abbrev pub is_cluster_api : ProviderMode → Bool
is_cluster_api cluster_api = true
is_cluster_api direct_talos = false

pub data State : Type 0 where
  draft planning validating provisioning bootstrapping installing configuring : State
  ready degraded upgrading failed deleting deleted : State

-- The texts of the states.
unfoldable pub state_name : State → String
state_name draft = "DRAFT"
state_name planning = "PLANNING"
state_name validating = "VALIDATING"
state_name provisioning = "PROVISIONING"
state_name bootstrapping = "BOOTSTRAPPING"
state_name installing = "INSTALLING"
state_name configuring = "CONFIGURING"
state_name ready = "READY"
state_name degraded = "DEGRADED"
state_name upgrading = "UPGRADING"
state_name failed = "FAILED"
state_name deleting = "DELETING"
state_name deleted = "DELETED"

-- `validTransitions`
unfoldable pub valid_transitions : State → List State
valid_transitions draft = planning ∷ deleting ∷ []
valid_transitions planning = validating ∷ failed ∷ deleting ∷ []
valid_transitions validating = provisioning ∷ failed ∷ deleting ∷ []
valid_transitions provisioning = bootstrapping ∷ failed ∷ deleting ∷ []
valid_transitions bootstrapping = installing ∷ failed ∷ deleting ∷ []
valid_transitions installing = configuring ∷ failed ∷ deleting ∷ []
valid_transitions configuring = ready ∷ failed ∷ deleting ∷ []
valid_transitions ready = degraded ∷ upgrading ∷ deleting ∷ []
valid_transitions degraded = ready ∷ failed ∷ deleting ∷ []
valid_transitions upgrading = ready ∷ degraded ∷ failed ∷ []
valid_transitions failed = planning ∷ deleting ∷ []
valid_transitions deleting = deleted ∷ failed ∷ []
valid_transitions deleted = []

-- Go compares the states as strings, which are distinct.
abbrev tag : State → ℕ
tag draft = 0
tag planning = 1
tag validating = 2
tag provisioning = 3
tag bootstrapping = 4
tag installing = 5
tag configuring = 6
tag ready = 7
tag degraded = 8
tag upgrading = 9
tag failed = 10
tag deleting = 11
tag deleted = 12

abbrev pub state_eq : State → State → Bool
state_eq a b = tag a == tag b

-- The loop of `CanTransition`.
unfoldable pub allows : List State → State → Bool
allows [] next = false
allows (allowed ∷ rest) next = if state_eq allowed next then true else allows rest next

unfoldable pub can_transition : State → State → Bool
unfolding allows valid_transitions
can_transition s next = allows (valid_transitions s) next

-- The integers of the specs are `int32` counts, never negative where the program reads them.
pub record ControlPlaneSpec : Type 0 where
  pub replicas : ℕ
  pub cpu : ℕ
  pub memory_gb : ℕ

pub record WorkerPoolSpec : Type 0 where
  pub name : String
  pub replicas : ℕ
  pub cpu : ℕ
  pub memory_gb : ℕ
  pub labels : List (String × String)
  pub taints : List String

pub record NetworkSpec : Type 0 where
  pub pod_cidr : String
  pub service_cidr : String

pub record CniSpec : Type 0 where
  pub kind : String
  pub values : List (String × String)

pub record StorageSpec : Type 0 where
  pub csi : String
  pub values : List (String × String)

pub record IngressSpec : Type 0 where
  pub controller : String
  pub values : List (String × String)

pub record ObservabilitySpec : Type 0 where
  pub prometheus : Bool
  pub grafana : Bool
  pub loki : Bool
  pub open_telemetry : Bool

pub record GitOpsSpec : Type 0 where
  pub repository_id : Uuid
  pub path : String
  pub branch : String

pub record ArgoCdSpec : Type 0 where
  pub enabled : Bool
  pub project : String

pub record Spec : Type 0 where
  pub kubernetes_version : String
  pub talos_version : String
  pub control_plane : ControlPlaneSpec
  pub workers : List WorkerPoolSpec
  pub network : NetworkSpec
  pub cni : CniSpec
  pub storage : StorageSpec
  pub ingress : IngressSpec
  pub observability : ObservabilitySpec
  pub gitops : GitOpsSpec
  pub argocd : ArgoCdSpec

pub record Cluster : Type 0 where
  pub id : Uuid
  pub organization_id : Uuid
  pub project_id : Uuid
  pub environment_id : Uuid
  pub site_id : Uuid
  pub template_id : Option Uuid
  pub name : String
  pub endpoint : String
  pub provider_mode : ProviderMode
  pub state : State
  pub talos_config_ref : String
  pub spec : Spec
  pub git_commit_sha : String
  pub timestamps : Timestamps

-- `Transition`: an illegal jump is refused before anything is written.
unfoldable pub transition : Time → State → Cluster → Result Cluster
unfolding can_transition
transition now next c =
    if can_transition c.state next
    then ok (record c { state = next; timestamps = touch now c.timestamps })
    else err (sentinel precondition_fail)
