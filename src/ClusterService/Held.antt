-- ===== src/ClusterService/Held.antt =====
-- A cluster in the hands of a request of internal/application/clusterservice/service.go: read from
-- the table, moved on by `Transition`, and written back.
use talos_app.Prelude.{
  ◌≡◌, refl, sym, ap, ◌∙◌, true, some, List, [], ◌∷◌, ◌⊎◌, inl, inr, find, suc, Option-cases,
  Bool-cases, ==_iff,
}
use talos_app.Shared.{Uuid, Time, touch}
use talos_app.Exec.{Exec, Result, ok, err, ◌>>=◌, lift}
use talos_app.Exec.Frame.{IsFixed}
use talos_app.Exec.Triple.{After, Triple, then-Triple, wrapped-Triple, pure-Triple}
use talos_app.Domain.Cluster.{Cluster, State, can_transition, transition}
use talos_app.Domain.Cluster.Lifecycle.{Walk, stop, move}
use talos_app.Platform.{Platform, World, call, clock}
use talos_app.Platform.Rows.Lookup.{find-satisfies}
use talos_app.Platform.Calls.{clock-IsFixed}
use talos_app.Platform.Rows.{update_rows, affects}
use talos_app.ClusterRepo
use talos_app.ClusterRepo.{cluster_has_id, set_cluster}
use talos_app.ClusterService.{transition_all}

-- The row of the cluster `id` is written once: its state goes through the states `path`, one edge of
-- the transition table each, and is the last of them, or what it was where there are none.
pub record Transitioned (path : List State) (id : Uuid) (rows rows' : List Cluster) : Type 0 where
  pub old : Cluster
  pub new : Cluster
  pub now : Time
  pub found : find (cluster_has_id id) rows ≡ some old
  pub walk : Walk old.state path new.state
  pub written : rows' ≡ update_rows (cluster_has_id id) (set_cluster now new) rows

abbrev pub Moved : List State → Uuid → List Cluster → List Cluster → Type 0
Moved path id rows rows' = (rows' ≡ rows) ⊎ Transitioned path id rows rows'

-- A cluster as a handler holds it: read from the table, and moved on by `Transition` along `path` as
-- far as the states `rest`.
pub record Held (path rest : List State) (id : Uuid) (rows : List Cluster) (c : Cluster)
    : Type 0 where
  pub old : Cluster
  pub found : find (cluster_has_id id) rows ≡ some old
  pub same : c.id ≡ id
  pub onward : {t : State} → Walk c.state rest t → Walk old.state path t

module _ {X : Type 0} (w : World) (path : List State) (id : Uuid) (rows : List Cluster) where
  abbrev pub Before : Platform X → Type 0
  Before s = s.db.clusters ≡ rows

  abbrev pub HeldIn : List State → Cluster → Platform X → Type 0
  HeldIn rest c s = Before s × Held path rest id rows c

  abbrev pub Settled : Platform X → Type 0
  Settled s = Moved path id rows s.db.clusters

  pub get-Triple : Triple Before (HeldIn path) Settled (ClusterRepo.get w id)
  unfolding ClusterRepo.get call
  get-Triple = record {
    leads = λ s h. elim (Option-cases (w.fault s.calls)) [
      | inl n ↦ elim (Option-cases (find (cluster_has_id id) s.db.clusters)) [
        | inl f ↦ rw (n, f) (inl h)
        | inr (c, f) ↦ rw (n, f) (h, held c (ap (find (cluster_has_id id)) (sym h) ∙ f))
      ]
      | inr (message, n) ↦ rw n (inl h)
    ];
  }
    where
      held : (c : Cluster) → find (cluster_has_id id) rows ≡ some c → Held path path id rows c
      held c f = record {
        old = c;
        found = f;
        same = (==_iff c.id id).0 (find-satisfies (cluster_has_id id) rows c f);
        onward = λ k. k;
      }

  pub unwritten :
      {A : Type 0} (rest : List State) (m : Exec (Platform X) A) (c : Cluster)
      → IsFixed (λ s. s.db.clusters) m
      → Triple (HeldIn rest c) (λ a. HeldIn rest c) Settled m
  unwritten rest m c k = record { leads = λ s h. after (m s).0 (m s).1 (k.fixed s ∙ h.0) h.1 }
    where
      after :
          {A : Type 0} (r : Result A) (s : Platform X)
          → Before s
          → Held path rest id rows c
          → After (λ a. HeldIn rest c) Settled r s
      after (ok a) s b h = (b, h)
      after (err x) s b h = inl b

  pub transition-Triple :
      (rest : List State) (now : Time) (next : State) (c : Cluster)
      → Triple (HeldIn (next ∷ rest) c) (HeldIn rest) Settled (lift (transition now next c))
  unfolding transition ◌>>=◌
  transition-Triple rest now next c = record {
    leads = λ s h. elim (Bool-cases (can_transition c.state next)) [
      | inl b ↦ rw b (h.0, moved h.1 b)
      | inr b ↦ rw b (inl h.0)
    ];
  }
    where
      moved :
          Held path (next ∷ rest) id rows c
          → can_transition c.state next ≡ true
          → Held path rest id rows (record c { state = next; timestamps = touch now c.timestamps })
      moved h b = record {
        old = h.old;
        found = h.found;
        same = h.same;
        onward = λ k. h.onward (move b k);
      }

  pub transition_all-Triple :
      (states : List State) (c : Cluster)
      → Triple (HeldIn states c) (HeldIn []) Settled (transition_all w states c)
  unfolding transition_all
  transition_all-Triple [] c = pure-Triple c (λ s h. h)
  transition_all-Triple (next ∷ rest) c =
      then-Triple _ _
        (unwritten (next ∷ rest) (clock w) c (clock-IsFixed (λ s. s.db.clusters) (λ s. refl) w))
        (λ now.
          then-Triple _ _ (wrapped-Triple _ _ (transition-Triple rest now next c))
            (λ moved. transition_all-Triple rest moved))

  pub update-Triple :
      (c : Cluster) → Triple (HeldIn [] c) (λ a. Settled) Settled (ClusterRepo.update w c)
  unfolding ClusterRepo.update call ◌>>=◌
  update-Triple c = record {
    leads = λ s h. elim (Option-cases (w.fault (suc s.calls))) [
      | inl n ↦ elim (Bool-cases (affects (cluster_has_id c.id) s.db.clusters)) [
        | inl a ↦ rw (n, a) (inr (written (w.time s.calls) s.db.clusters h.0 h.1))
        | inr a ↦ rw (n, a) (inl h.0)
      ]
      | inr (message, n) ↦ rw n (inl h.0)
    ];
  }
    where
      written :
          (now : Time) (at : List Cluster)
          → at ≡ rows
          → Held path [] id rows c
          → Transitioned path id rows (update_rows (cluster_has_id c.id) (set_cluster now c) at)
      written now at b h = record {
        old = h.old;
        new = c;
        now = now;
        found = h.found;
        walk = h.onward stop;
        written =
            ap (update_rows (cluster_has_id c.id) (set_cluster now c)) b
            ∙ ap (λ k. update_rows (cluster_has_id k) (set_cluster now c) rows) h.same;
      }
