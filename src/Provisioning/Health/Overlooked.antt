-- ===== src/Provisioning/Health/Overlooked.antt =====
-- Which machines `checkTalosHealth` of internal/workflows/cluster_provision.go looks at.
use talos_app.Prelude.{
  ◌≡◌, refl, sym, ap, String, Bool, true, false, Option, none, some, List, [], ◌∷◌, take, length,
  if◌then◌else◌, Option-cases, inl, inr,
}
use talos_app.Shared.{Error}
use talos_app.Exec.{Exec, Result, ok, err, continue, ◌>>=◌, ◌>>◌, pure, raise, wrapped}
use talos_app.Domain.Cluster.{Cluster}
use talos_app.Domain.Machine.{Machine}
use talos_app.Platform.{Platform, Db, World, call, tick}
use talos_app.Platform.Rows.{newest_where}
use talos_app.Ports.{TalosClient, Secrets, outside}
use talos_app.MachineRepo.Machines.{of_cluster, satisfies, machine_age, list_machines}
use talos_app.Provisioning.Health.{
  register_credentials, check_machines, talos_config, talos_health, check_talos_health,
}
use talos_app.Provisioning.{Deps}

module _ {X : Type 0} where
  -- An action that neither reads the tables nor writes them.
  record IsApart {A : Type 0} (m : Exec (Platform X) A) : Type 0 where
    apart :
        (s : Platform X) (db : Db)
        → m (record s { db = db }) ≡ ((m s).0, record (m s).1 { db = db })

  pure-IsApart : {A : Type 0} (a : A) → IsApart (pure a)
  unfolding ◌>>=◌
  pure-IsApart a = record { apart = λ s db. refl }

  raise-IsApart : {A : Type 0} (x : Error) → IsApart (raise {A = A} x)
  unfolding ◌>>=◌
  raise-IsApart x = record { apart = λ s db. refl }

  outside-IsApart : {A : Type 0} (m : Exec X A) → IsApart (outside m)
  unfolding outside
  outside-IsApart m = record { apart = λ s db. refl }

  wrapped-IsApart :
      {A : Type 0} (l : String) (m : Exec (Platform X) A) → IsApart m → IsApart (wrapped l m)
  unfolding ◌>>=◌
  wrapped-IsApart l m k = record { apart = λ s db. rw (k.apart s db) refl }

  if-IsApart :
      {A : Type 0} (b : Bool) (m n : Exec (Platform X) A)
      → IsApart m
      → IsApart n
      → IsApart (if b then m else n)
  if-IsApart true m n hm hn = hm
  if-IsApart false m n hm hn = hn

  continue-apart :
      {A B : Type 0} (r : Result A) (k : A → Exec (Platform X) B)
      → ((a : A) → IsApart (k a))
      → (s : Platform X) (db : Db)
      → continue r k (record s { db = db })
        ≡ ((continue r k s).0, record (continue r k s).1 { db = db })
  continue-apart (ok a) k h s db = (h a).apart s db
  continue-apart (err x) k h s db = refl

  then-IsApart :
      {A B : Type 0} (m : Exec (Platform X) A) (k : A → Exec (Platform X) B)
      → IsApart m
      → ((a : A) → IsApart (k a))
      → IsApart (m >>= k)
  unfolding ◌>>=◌
  then-IsApart m k hm hk = record {
    apart = λ s db. rw (hm.apart s db) (continue-apart (m s).0 k hk (m s).1 db);
  }

  register_credentials-IsApart :
      (t : TalosClient X) (config : Option String) (m : Machine)
      → IsApart (register_credentials t config m)
  unfolding register_credentials
  register_credentials-IsApart t none m = pure-IsApart tt
  register_credentials-IsApart t (some config) m = wrapped-IsApart _ _ (outside-IsApart _)

  check_machines-IsApart :
      (t : TalosClient X) (config : Option String) (ms : List Machine)
      → IsApart (check_machines t config ms)
  unfolding check_machines
  check_machines-IsApart t config [] = pure-IsApart tt
  check_machines-IsApart t config (m ∷ rest) =
      then-IsApart _ _ (register_credentials-IsApart t config m) (λ _.
        then-IsApart _ _ (wrapped-IsApart _ _ (outside-IsApart _)) (λ healthy.
          if-IsApart healthy _ _ (check_machines-IsApart t config rest) (raise-IsApart _)))

  talos_config-IsApart :
      (secrets : Option (Secrets X)) (c : Cluster) → IsApart (talos_config secrets c)
  unfolding talos_config
  talos_config-IsApart none c = pure-IsApart none
  talos_config-IsApart (some secrets) c =
      if-IsApart _ _ _ (pure-IsApart none)
        (then-IsApart _ _ (wrapped-IsApart _ _ (outside-IsApart _)) (λ config. pure-IsApart _))

module _ {X : Type 0} (w : World) (d : Deps X) where
  -- The machines of a cluster, newest first.
  abbrev pub machines_of : Cluster → List Machine → List Machine
  machines_of c ms = newest_where (satisfies (of_cluster c.id)) machine_age ms

  -- The check once the machines are listed.
  checks-IsApart :
      (t : TalosClient X) (c : Cluster) (ms : List Machine)
      → IsApart
          (talos_config d.secrets c >>= λ config. check_machines t config ms >> pure (length ms))
  checks-IsApart t c ms =
      then-IsApart _ _ (talos_config-IsApart d.secrets c)
        (λ config. then-IsApart _ _ (check_machines-IsApart t config ms) (λ _. pure-IsApart _))

  talos_health-overlooks :
      (o : Option (TalosClient X)) (c : Cluster) (s : Platform X) (ms : List Machine)
      → take 50 (machines_of c s.db.machines) ≡ take 50 (machines_of c ms)
      → (talos_health w d o c (record s { db = record s.db { machines = ms } })).0
        ≡ (talos_health w d o c s).0
  unfolding talos_health list_machines call ◌>>=◌
  talos_health-overlooks none c s ms e = refl
  talos_health-overlooks (some t) c s ms e = elim (Option-cases (w.fault s.calls)) [
    | inl n ↦
        rw (n, sym e)
          (ap (λ r. r.0)
            ((checks-IsApart t c (take 50 (machines_of c s.db.machines))).apart (tick s) _))
    | inr (message, n) ↦ rw n refl
  ]

  -- The health check of a cluster depends on its fifty newest machines only: however many more it has
  -- and in whatever health they are, what it answers is the same.
  pub check_talos_health-overlooks :
      (c : Cluster) (s : Platform X) (ms : List Machine)
      → take 50 (machines_of c s.db.machines) ≡ take 50 (machines_of c ms)
      → (check_talos_health w d c (record s { db = record s.db { machines = ms } })).0
        ≡ (check_talos_health w d c s).0
  unfolding check_talos_health ◌>>=◌
  check_talos_health-overlooks c s ms e = split d.has_machines
    where
      split :
          (b : Bool)
          → ((if b then talos_health w d d.talos c else pure 0)
              (record s { db = record s.db { machines = ms } })).0
            ≡ ((if b then talos_health w d d.talos c else pure 0) s).0
      split true = talos_health-overlooks d.talos c s ms e
      split false = refl
