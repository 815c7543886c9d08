-- ===== src/Leader.antt =====
-- internal/infrastructure/leaderelection/leaderelection.go over the lock of
-- internal/infrastructure/redis/client.go. The Redis server is a parameter with its documented
-- behaviour; a call of it may be refused, or be done and its reply be lost.
pub mod Exclusive
pub mod Reachable
use talos_app.Prelude.{
  ℕ, ◌+◌, ◌≤◌, ◌<◌, ◌≡◌, Bool, true, false, Option, none, some, ◌==◌, if◌then◌else◌,
}
use talos_app.Shared.{Time}

-- `uuid.NewString()`
abbrev pub Token : Type 0
Token = ℕ

-- The commands on one key, each at a time of the server's clock.
pub record Redis (R : Type 0) : Type 0 where
  pub value : Time → R → Option Token
  pub set_nx : Time → Token → Time → R → Bool × R
  pub pexpire : Time → Time → R → Bool × R
  pub del : Time → R → R
  pub set_nx_held :
      (t : Time) (k tok : Token) (ttl : Time) (r : R)
      → value t r ≡ some k
      → set_nx t tok ttl r ≡ (false, r)
  pub set_nx_free :
      (t : Time) (tok : Token) (ttl : Time) (r : R)
      → value t r ≡ none
      → (set_nx t tok ttl r).0 ≡ true
  pub set_nx_keeps :
      (t : Time) (tok : Token) (ttl : Time) (r : R) (u : Time)
      → value t r ≡ none
      → t ≤ u
      → u < t + ttl
      → value u (set_nx t tok ttl r).1 ≡ some tok
  pub pexpire_keeps :
      (t : Time) (k : Token) (ttl : Time) (r : R) (u : Time)
      → value t r ≡ some k
      → t ≤ u
      → u < t + ttl
      → value u (pexpire t ttl r).1 ≡ some k

pub data Link : Type 0 where
  works refused lost : Link

module _ {R : Type 0} where
  unfoldable pub over : {A : Type 0} → Link → (R → A × R) → R → Option A × R
  over works f r = (some (f r).0, (f r).1)
  over refused f r = (none, r)
  over lost f r = (none, (f r).1)

  -- `IsLeader` from the reply to `AcquireLock`: the answer, the lock that is kept, the server.
  unfoldable pub acquired : Token → Option Bool × R → Bool × Option Token × R
  acquired tok (some true, r) = (true, some tok, r)
  acquired tok (some false, r) = (false, none, r)
  acquired tok (none, r) = (false, none, r)

module _ {R : Type 0} (server : Redis R) (ttl : Time) where
  abbrev matches : Token → Option Token → Bool
  matches tok none = false
  matches tok (some k) = k == tok

  -- The script of `Renew`.
  unfoldable pub renew_script : Time → Token → R → Bool × R
  renew_script t tok r =
      if matches tok (server.value t r) then server.pexpire t ttl r else (false, r)

  -- The script of `Unlock`.
  unfoldable pub unlock_script : Time → Token → R → Bool × R
  unlock_script t tok r =
      if matches tok (server.value t r) then (true, server.del t r) else (false, r)

  unfoldable pub acquire_lock : Link → Time → Token → R → Option Bool × R
  acquire_lock link t tok = over link (server.set_nx t tok ttl)

  unfoldable pub renew : Link → Time → Token → R → Option Bool × R
  renew link t tok = over link (renew_script t tok)

  unfoldable pub unlock : Link → Time → Token → R → Option Bool × R
  unlock link t tok = over link (unlock_script t tok)

  -- `IsLeader` from the reply to `Renew`.
  unfoldable pub renewed : Link → Time → Token → Token → Option Bool × R → Bool × Option Token × R
  unfolding acquired
  renewed link t held tok (some true, r) = (true, some held, r)
  renewed link t held tok (some false, r) = acquired tok (acquire_lock link t tok r)
  renewed link t held tok (none, r) = (false, none, r)

  -- `IsLeader`: `tok` is the token that it makes where it acquires.
  unfoldable pub is_leader : Link → Link → Time → Token → Option Token → R → Bool × Option Token × R
  unfolding renewed
  is_leader first second t tok none r = acquired tok (acquire_lock second t tok r)
  is_leader first second t tok (some held) r = renewed second t held tok (renew first t held r)

  unfoldable pub resign : Link → Time → Option Token → R → Option Token × R
  resign link t none r = (none, r)
  resign link t (some held) r = (none, (unlock link t held r).1)

-- All replicas at one time of the server's clock: the lock that each keeps, and until when its last
-- positive answer holds good.
pub record Replicas (R : Type 0) : Type 0 where
  pub now : Time
  pub server : R
  pub locks : ℕ → Option Token
  pub until : ℕ → Time

abbrev pub put : {A : Type 0} → ℕ → A → (ℕ → A) → ℕ → A
put i a f j = if j == i then a else f j

module _ {R : Type 0} (server : Redis R) (ttl : Time) where
  unfoldable pub ask : Link → Link → ℕ → Token → Replicas R → Replicas R
  ask first second i tok s =
      let r = is_leader server ttl first second s.now tok (s.locks i) s.server in
      record s {
        server = r.2;
        locks = put i r.1 s.locks;
        until = put i (if r.0 then s.now + ttl else 0) s.until;
      }

  unfoldable pub step_down : Link → ℕ → Replicas R → Replicas R
  step_down link i s =
      let r = resign server ttl link s.now (s.locks i) s.server in
      record s { server = r.1; locks = put i r.0 s.locks; until = put i 0 s.until }
