-- ===== src/Leader/Reachable.antt =====
-- All runs of the replicas of internal/infrastructure/leaderelection/leaderelection.go.
use talos_app.Prelude.{
  ℕ, ◌+◌, ◌≤◌, ◌<◌, ◌≡◌, ◌≢◌, refl, sym, ap, ◌∙◌, false, Option, none, some, ◌==◌, if◌then◌else◌,
  arith, Bool-cases, inl, inr, some-injective, ==_iff, ==_self,
}
use talos_app.Shared.{Time}
use talos_app.Leader.{Token, Redis, Link, is_leader, resign, Replicas, put, ask, step_down}
use talos_app.Leader.Exclusive.{
  never, is_leader-IsLease, is_leader-blocked, resign-none, resign-blocked,
}

module _ {R : Type 0} (server : Redis R) (ttl : Time) where
  -- The clock runs; a replica asks with a token that no replica holds; one resigns; one starts anew.
  pub data Reach (start : Replicas R) : Replicas R → Type 0 where
    begin : Reach start start
    wait :
        (s : Replicas R) (t : Time) → s.now ≤ t → Reach start s → Reach start (record s { now = t })
    asks :
        (s : Replicas R) (first second : Link) (i : ℕ) (tok : Token)
        → ((j : ℕ) (x : Token) → s.locks j ≡ some x → x ≢ tok)
        → Reach start s
        → Reach start (ask server ttl first second i tok s)
    resigns :
        (s : Replicas R) (link : Link) (i : ℕ)
        → Reach start s
        → Reach start (step_down server ttl link i s)
    restarts :
        (s : Replicas R) (i : ℕ)
        → Reach start s
        → Reach start (record s { locks = put i none s.locks; until = put i 0 s.until })

  -- The server has the token of a replica for as long as its lease holds good, and no two replicas have
  -- the same token.
  record IsSound (s : Replicas R) : Type 0 where
    kept :
        (i : ℕ) (x : Token)
        → s.locks i ≡ some x
        → (u : Time) → s.now ≤ u
        → u < s.until i
        → server.value u s.server ≡ some x
    apart : (i j : ℕ) (x : Token) → s.locks i ≡ some x → s.locks j ≡ some x → i ≡ j

  put-same : {A : Type 0} (i : ℕ) (a : A) (f : ℕ → A) → put i a f i ≡ a
  put-same i a f = rw (==_self i)

  wait-IsSound :
      (s : Replicas R) (t : Time) → s.now ≤ t → IsSound s → IsSound (record s { now = t })
  wait-IsSound s t le g = record {
    kept = λ i x q u a b. g.kept i x q u (omega arith) b;
    apart = g.apart;
  }

  -- One replica changes its lock and its lease, and the server moves only where no lease of another
  -- replica holds good.
  change-IsSound :
      (s : Replicas R) (i : ℕ) (lock : Option Token) (lease : Time) (r : R)
      → IsSound s
      → ((x : Token)
          → lock ≡ some x
          → (u : Time) → s.now ≤ u
          → u < lease
          → server.value u r ≡ some x)
      → ((j : ℕ) (x : Token) → (j == i) ≡ false → s.locks j ≡ some x → lock ≡ some x → ⊥)
      → ((j : ℕ) (x : Token)
          → (j == i) ≡ false
          → s.locks j ≡ some x
          → s.now < s.until j
          → r ≡ s.server)
      → IsSound (record s { server = r; locks = put i lock s.locks; until = put i lease s.until })
  change-IsSound s i lock lease r g own other still = record {
    kept = λ j x q u a b. elim (Bool-cases (j == i)) [
      | inl e ↦ own x (rw e at q) u a (rw e at b)
      | inr e ↦
          let q' : s.locks j ≡ some x = rw e at q in
          let b' : u < s.until j = rw e at b in
          ap (server.value u) (still j x e q' (omega arith)) ∙ g.kept j x q' u a b'
    ];
    apart = λ j k x p q. elim (Bool-cases (j == i)) [
      | inl e ↦ elim (Bool-cases (k == i)) [
        | inl f ↦ ground (arith, e, f)
        | inr f ↦ elim (other k x f (rw f at q) (rw e at p)) [ ]
      ]
      | inr e ↦ elim (Bool-cases (k == i)) [
        | inl f ↦ elim (other j x e (rw e at p) (rw f at q)) [ ]
        | inr f ↦ g.apart j k x (rw e at p) (rw f at q)
      ]
    ];
  }

  differ :
      (s : Replicas R) (i j : ℕ) (x : Token)
      → IsSound s
      → (j == i) ≡ false
      → s.locks j ≡ some x
      → (y : Token) → s.locks i ≡ some y
      → (x == y) ≡ false
  differ s i j x g e p y q = elim (Bool-cases (x == y)) [
    | inl m ↦
        let same : s.locks i ≡ some x = q ∙ ap some (sym ((==_iff x y).0 m)) in
        let at = g.apart j i x p same in ground (arith, at, e)
    | inr m ↦ m
  ]

  ask-IsSound :
      (s : Replicas R) (first second : Link) (i : ℕ) (tok : Token)
      → ((j : ℕ) (x : Token) → s.locks j ≡ some x → x ≢ tok)
      → IsSound s
      → IsSound (ask server ttl first second i tok s)
  unfolding ask
  ask-IsSound s first second i tok fresh g =
      let out = is_leader server ttl first second s.now tok (s.locks i) s.server in
      let l = is_leader-IsLease server ttl first second s.now tok (s.locks i) s.server in
      change-IsSound s i out.1 (if out.0 then s.now + ttl else 0) out.2 g
        (λ x q u a b. l.leased x q u a (rw (l.positive x q) at b))
        (λ j x e p q. elim (l.known x q) [
          | inl m ↦ (let at = g.apart j i x p m in ground (arith, at, e))
          | inr m ↦ fresh j x p m
        ])
        (λ j x e p b.
          is_leader-blocked server ttl first second s.now tok x (s.locks i) s.server
            (g.kept j x p s.now (omega arith) b) (differ s i j x g e p))

  step_down-IsSound :
      (s : Replicas R) (link : Link) (i : ℕ) → IsSound s → IsSound (step_down server ttl link i s)
  unfolding step_down
  step_down-IsSound s link i g =
      let out = resign server ttl link s.now (s.locks i) s.server in
      let gone = resign-none server ttl link s.now (s.locks i) s.server in
      change-IsSound s i out.0 0 out.1 g (λ x q u a b. elim (never x (sym gone ∙ q)) [ ])
        (λ j x e p q. never x (sym gone ∙ q))
        (λ j x e p b.
          resign-blocked server ttl link s.now x (s.locks i) s.server
            (g.kept j x p s.now (omega arith) b) (differ s i j x g e p))

  Reach-IsSound :
      (start s : Replicas R) → ((i : ℕ) → start.locks i ≡ none) → Reach start s → IsSound s
  Reach-IsSound start s z begin = record {
    kept = λ i x q u a b. elim (never x (sym (z i) ∙ q)) [ ];
    apart = λ i j x p q. elim (never x (sym (z i) ∙ p)) [ ];
  }
  Reach-IsSound start s z (wait s0 t le r) = wait-IsSound s0 t le (Reach-IsSound start s0 z r)
  Reach-IsSound start s z (asks s0 first second i tok fresh r) =
      ask-IsSound s0 first second i tok fresh (Reach-IsSound start s0 z r)
  Reach-IsSound start s z (resigns s0 link i r) =
      step_down-IsSound s0 link i (Reach-IsSound start s0 z r)
  Reach-IsSound start s z (restarts s0 i r) =
      change-IsSound s0 i none 0 s0.server (Reach-IsSound start s0 z r)
        (λ x q u a b. elim (never x q) [ ]) (λ j x e p q. never x q) (λ j x e p b. refl)

  -- From a start where no replica holds a lock, however the replicas ask, resign and start anew, however
  -- calls of the server fail, where every token is new: two replicas that hold a lock whose lease holds
  -- good at the present time are the same replica, and the server has its token.
  pub one_leader :
      (start s : Replicas R)
      → ((i : ℕ) → start.locks i ≡ none)
      → Reach start s
      → (i j : ℕ) (x y : Token) → s.locks i ≡ some x
      → s.now < s.until i
      → s.locks j ≡ some y
      → s.now < s.until j
      → (i ≡ j) × (server.value s.now s.server ≡ some x)
  one_leader start s z r i j x y p a q b =
      let g = Reach-IsSound start s z r in
      let at_i = g.kept i x p s.now (omega arith) a in
      let at_j = g.kept j y q s.now (omega arith) b in
      (g.apart i j x p (q ∙ ap some (some-injective y x (sym at_j ∙ at_i))), at_i)
