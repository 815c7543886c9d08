-- ===== src/Scenarios/Election.antt =====
-- Two replicas of the scheduler.
use talos_app.Prelude.{
  ℕ, zero, suc, ◌+◌, ◌≤◌, ◌<◌, ◌≡◌, ◌≢◌, refl, Bool, true, false, Option, none, some, arith, ltb,
  if◌then◌else◌, inl, inr, Bool-cases,
}
use talos_app.Shared.{Time}
use talos_app.Leader.{Token, Redis, works, over, acquire_lock, acquired, is_leader, Replicas, ask}
use talos_app.Leader.Reachable.{Reach, begin, asks, one_leader}

-- A key with its value and the end of its life.
abbrev Entry : Type 0
Entry = Option (Token × Time)

abbrev value : Time → Entry → Option Token
value t none = none
value t (some (k, d)) = if ltb t d then some k else none

abbrev set_nx : Time → Token → Time → Entry → Bool × Entry
set_nx t tok ttl none = (true, some (tok, t + ttl))
set_nx t tok ttl (some (k, d)) =
    if ltb t d then (false, some (k, d)) else (true, some (tok, t + ttl))

abbrev pexpire : Time → Time → Entry → Bool × Entry
pexpire t ttl none = (false, none)
pexpire t ttl (some (k, d)) = if ltb t d then (true, some (k, t + ttl)) else (false, none)

set_nx_held :
    (t : Time) (k tok : Token) (ttl : Time) (r : Entry)
    → value t r ≡ some k
    → set_nx t tok ttl r ≡ (false, r)
set_nx_held t k tok ttl none h = ground (arith, h)
set_nx_held t k tok ttl (some (v, d)) h = elim (Bool-cases (ltb t d)) [
  | inl b ↦ rw b refl
  | inr b ↦ (let c : none ≡ some k = rw b at h in ground (arith, c))
]

set_nx_free :
    (t : Time) (tok : Token) (ttl : Time) (r : Entry)
    → value t r ≡ none
    → (set_nx t tok ttl r).0 ≡ true
set_nx_free t tok ttl none h = refl
set_nx_free t tok ttl (some (v, d)) h = elim (Bool-cases (ltb t d)) [
  | inl b ↦ (let c : some v ≡ none = rw b at h in ground (arith, c))
  | inr b ↦ rw b refl
]

set_nx_keeps :
    (t : Time) (tok : Token) (ttl : Time) (r : Entry) (u : Time)
    → value t r ≡ none
    → t ≤ u
    → u < t + ttl
    → value u (set_nx t tok ttl r).1 ≡ some tok
set_nx_keeps t tok ttl none u h a b = ground (arith, b)
set_nx_keeps t tok ttl (some (v, d)) u h a b = elim (Bool-cases (ltb t d)) [
  | inl c ↦ (let f : some v ≡ none = rw c at h in ground (arith, f))
  | inr c ↦ rw c (ground (arith, b))
]

pexpire_keeps :
    (t : Time) (k : Token) (ttl : Time) (r : Entry) (u : Time)
    → value t r ≡ some k
    → t ≤ u
    → u < t + ttl
    → value u (pexpire t ttl r).1 ≡ some k
pexpire_keeps t k ttl none u h a b = ground (arith, h)
pexpire_keeps t k ttl (some (v, d)) u h a b = elim (Bool-cases (ltb t d)) [
  | inl c ↦ (let f : some v ≡ some k = rw c at h in rw c (ground (arith, f, b)))
  | inr c ↦ (let f : none ≡ some k = rw c at h in ground (arith, f))
]

abbrev redis : Redis Entry
redis = record {
  value = value;
  set_nx = set_nx;
  pexpire = pexpire;
  del = λ t r. none;
  set_nx_held = set_nx_held;
  set_nx_free = set_nx_free;
  set_nx_keeps = set_nx_keeps;
  pexpire_keeps = pexpire_keeps;
}

abbrev idle : Replicas Entry
idle = record { now = 5; server = none; locks = λ i. none; until = λ i. 0 }

abbrev after_one : Replicas Entry
after_one = ask redis 30 works works 0 11 idle

abbrev after_two : Replicas Entry
after_two = ask redis 30 works works 1 12 after_one

new_to_one : (j : ℕ) (x : Token) → idle.locks j ≡ some x → x ≢ 11
new_to_one j x q = ground (arith, q)

new_to_two : (j : ℕ) (x : Token) → after_one.locks j ≡ some x → x ≢ 12
unfolding ask is_leader acquired acquire_lock over
new_to_two zero x q = ground (arith, q)
new_to_two (suc j) x q = ground (arith, q)

two_asked : Reach redis 30 idle after_two
two_asked = asks after_one works works 1 12 new_to_two (asks idle works works 0 11 new_to_one begin)

first_leads : (after_two.locks 0 ≡ some 11) × (after_two.until 0 ≡ 35) × (after_two.now ≡ 5)
unfolding ask is_leader acquired acquire_lock over
first_leads = (refl, refl, refl)

abbrev the_first : ℕ
the_first = 0

good : after_two.now < after_two.until 0
good = omega (arith, first_leads.1, first_leads.2)

one_leader_example : (the_first ≡ the_first) × (value after_two.now after_two.server ≡ some 11)
one_leader_example =
    one_leader redis 30 idle after_two (λ i. refl) two_asked 0 0 11 11 first_leads.0 good
      first_leads.0 good
