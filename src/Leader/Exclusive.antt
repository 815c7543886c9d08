-- ===== src/Leader/Exclusive.antt =====
-- At most one replica leads, in internal/infrastructure/leaderelection/leaderelection.go.
use talos_app.Prelude.{
  ◌+◌, ◌≤◌, ◌<◌, ◌≡◌, refl, sym, ap, ◌∙◌, Bool, true, false, Option, none, some, ◌==◌, arith,
  Bool-cases, Option-cases, inl, inr, ◌⊎◌, some-injective, ==_iff,
}
use talos_app.Shared.{Time}
use talos_app.Leader.{
  Token, Redis, Link, works, refused, lost, over, renew_script, unlock_script, acquire_lock, renew,
  unlock, acquired, renewed, is_leader, resign,
}

pub never : (x : Token) → none ≡ some x → ⊥
never x q = ground arith

module _ {R : Type 0} (server : Redis R) (ttl : Time) where
  -- What an answer of `IsLeader` means: the lock that is kept is the one that was held or the new one,
  -- it is kept only with a positive answer, and then the server has it for the whole lease.
  pub record IsLease (t : Time) (tok : Token) (held : Option Token) (out : Bool × Option Token × R)
      : Type 0 where
    pub positive : (x : Token) → out.1 ≡ some x → out.0 ≡ true
    pub known : (x : Token) → out.1 ≡ some x → (held ≡ some x) ⊎ (x ≡ tok)
    pub leased :
        (x : Token)
        → out.1 ≡ some x
        → (u : Time) → t ≤ u
        → u < t + ttl
        → server.value u out.2 ≡ some x

  nothing :
      (t : Time) (tok : Token) (held : Option Token) (r : R) → IsLease t tok held (false, none, r)
  nothing t tok held r = record {
    positive = λ x q. ground (arith, q);
    known = λ x q. ground (arith, q);
    leased = λ x q u a b. elim (never x q) [ ];
  }

  acquire-IsLease :
      (link : Link) (t : Time) (tok : Token) (held : Option Token) (r : R)
      → IsLease t tok held (acquired tok (acquire_lock server ttl link t tok r))
  unfolding acquired acquire_lock over
  acquire-IsLease works t tok held r = elim (Option-cases (server.value t r)) [
    | inl n ↦ rw (server.set_nx_free t tok ttl r n) (record {
      positive = λ x q. refl;
      known = λ x q. inr (sym (some-injective tok x q));
      leased = λ x q u a b. server.set_nx_keeps t tok ttl r u n a b ∙ q;
    })
    | inr (k, n) ↦ rw (server.set_nx_held t k tok ttl r n) (nothing t tok held r)
  ]
  acquire-IsLease refused t tok held r = nothing t tok held r
  acquire-IsLease lost t tok held r = nothing t tok held (server.set_nx t tok ttl r).1

  -- A server that has the token of another replica is left as it is.
  acquire-blocked :
      (link : Link) (t : Time) (tok k : Token) (r : R)
      → server.value t r ≡ some k
      → (acquired tok (acquire_lock server ttl link t tok r)).2 ≡ r
  unfolding acquired acquire_lock over
  acquire-blocked works t tok k r h = rw (server.set_nx_held t k tok ttl r h) refl
  acquire-blocked refused t tok k r h = refl
  acquire-blocked lost t tok k r h = rw (server.set_nx_held t k tok ttl r h) refl

  renew-IsLease :
      (first second : Link) (t : Time) (held tok : Token) (r : R)
      → IsLease t tok
          (some held)
          (renewed server ttl second t held tok (renew server ttl first t held r))
  unfolding renewed renew renew_script over
  renew-IsLease works second t held tok r = elim (Option-cases (server.value t r)) [
    | inl n ↦ rw n (acquire-IsLease second t tok (some held) r)
    | inr (k, n) ↦ elim (Bool-cases (k == held)) [
      | inl m ↦
          rw (n, m)
            (elim (Bool-cases (server.pexpire t ttl r).0) [
              | inl y ↦ rw y (record {
                positive = λ x q. refl;
                known = λ x q. inl q;
                leased = λ x q u a b.
                    server.pexpire_keeps t held ttl r u (n ∙ ap some ((==_iff k held).0 m)) a b ∙ q;
              })
              | inr y ↦ rw y (acquire-IsLease second t tok (some held) (server.pexpire t ttl r).1)
            ])
      | inr m ↦ rw (n, m) (acquire-IsLease second t tok (some held) r)
    ]
  ]
  renew-IsLease refused second t held tok r = nothing t tok (some held) r
  renew-IsLease lost second t held tok r = nothing t tok (some held) _

  pub is_leader-IsLease :
      (first second : Link) (t : Time) (tok : Token) (held : Option Token) (r : R)
      → IsLease t tok held (is_leader server ttl first second t tok held r)
  unfolding is_leader
  is_leader-IsLease first second t tok none r = acquire-IsLease second t tok none r
  is_leader-IsLease first second t tok (some x) r = renew-IsLease first second t x tok r

  pub is_leader-blocked :
      (first second : Link) (t : Time) (tok k : Token) (held : Option Token) (r : R)
      → server.value t r ≡ some k
      → ((x : Token) → held ≡ some x → (k == x) ≡ false)
      → (is_leader server ttl first second t tok held r).2 ≡ r
  unfolding is_leader renewed renew renew_script over
  is_leader-blocked first second t tok k none r h d = acquire-blocked second t tok k r h
  is_leader-blocked works second t tok k (some x) r h d =
      rw (h, d x refl) (acquire-blocked second t tok k r h)
  is_leader-blocked refused second t tok k (some x) r h d = refl
  is_leader-blocked lost second t tok k (some x) r h d = rw (h, d x refl) refl

  pub resign-none :
      (link : Link) (t : Time) (held : Option Token) (r : R)
      → (resign server ttl link t held r).0 ≡ none
  unfolding resign
  resign-none link t none r = refl
  resign-none link t (some x) r = refl

  pub resign-blocked :
      (link : Link) (t : Time) (k : Token) (held : Option Token) (r : R)
      → server.value t r ≡ some k
      → ((x : Token) → held ≡ some x → (k == x) ≡ false)
      → (resign server ttl link t held r).1 ≡ r
  unfolding resign unlock unlock_script over
  resign-blocked link t k none r h d = refl
  resign-blocked works t k (some x) r h d = rw (h, d x refl) refl
  resign-blocked refused t k (some x) r h d = refl
  resign-blocked lost t k (some x) r h d = rw (h, d x refl) refl
