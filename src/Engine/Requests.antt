-- ===== src/Engine/Requests.antt =====
-- `Enqueue` of internal/workflows/engine.go: repeated requests, and requests that fail half way.
use talos_app.Prelude.{String, ◌≡◌, refl, Option, some, find}
use talos_app.Shared.{Uuid, Error, JsonMap}
use talos_app.Exec.{ok, err, ◌>>=◌}
use talos_app.Domain.Workflow.{Workflow, Kind}
use talos_app.Platform.{Platform, World, IsHealthy, call, tick}
use talos_app.WorkflowRepo.{has_key, get_by_idempotency_key}
use talos_app.Engine.{Engine, enqueue}
use talos_app.Engine.Frame.{enqueue-IsFailsafe}

module _ {X : Type 0} where
  get_by_key-healthy :
      (w : World) (h : IsHealthy w) (key : String) (s : Platform X) (wf : Workflow)
      → find (has_key key) s.db.workflows ≡ some wf
      → get_by_idempotency_key w key s ≡ (ok wf, tick s)
  unfolding get_by_idempotency_key call ◌>>=◌
  get_by_key-healthy w h key s wf f = rw (h s.calls) (rw f)

  pub enqueue-existing :
      (w : World) (e : Engine X) (h : IsHealthy w) (kind : Kind) (key : String) (input : JsonMap)
      (cluster machine : Option Uuid) (by : Uuid) (s : Platform X) (wf : Workflow)
      → find (has_key key) s.db.workflows ≡ some wf
      → enqueue w e kind key input cluster machine by s ≡ (ok wf, tick s)
  unfolding enqueue ◌>>=◌
  enqueue-existing w e h kind key input cluster machine by s wf f =
      rw (get_by_key-healthy w h key s wf f)

  -- A request whose run was stored and whose call failed has sent no message, and the same request
  -- made again, where every call goes through, answers with the stored run and sends none either.
  pub enqueue-strands :
      (w w' : World) (e : Engine X) (kind : Kind) (key : String) (input : JsonMap)
      (cluster machine : Option Uuid) (by : Uuid) (s : Platform X) (wf : Workflow) (x : Error)
      → IsHealthy w'
      → let failed = enqueue w e kind key input cluster machine by s in
        failed.0 ≡ err x
        → find (has_key key) failed.1.db.workflows ≡ some wf
        → let again = enqueue w' e kind key input cluster machine by failed.1 in
          (again.0 ≡ ok wf) × (again.1.dispatches ≡ s.dispatches)
  enqueue-strands w w' e kind key input cluster machine by s wf x h q f =
      let s' = (enqueue w e kind key input cluster machine by s).1 in
      let safe =
        enqueue-IsFailsafe (λ y. y.dispatches) (λ y. refl) (λ y ws ss. refl) w e kind key input
          cluster machine by in
      rw (enqueue-existing w' e h kind key input cluster machine by s' wf f)
        (refl, safe.undone s x q)
