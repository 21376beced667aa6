-- ===== src/Budget.antt =====
-- src/modules/resume-brain/ai-budget.service.ts: the daily budget of a user for the paid AI endpoint.
-- Redis is an interface. A key is named by a number, two for each user.
pub mod Laws
mod Tests
use beleqet_ecosystem_update.Base.{
  ℕ, ◌+◌, ◌*◌, ◌<◌, ◌≡◌, ◌≢◌, ltb, leb, if◌then◌else◌, Bool, true, false, Option, none, some,
  Result, ok, err, HttpError, too_many_requests,
}

abbrev pub count : Option ℕ → ℕ
count none = 0
count (some n) = n

-- What the service uses of Redis, at a time: the value of a counter, the seconds that it has left to
-- live if it has a limit, an increment, and a limit. The laws are those of GET, TTL, INCRBY and EXPIRE.
pub record Redis : Type 1 where
  pub Store : Type 0
  pub get : ℕ → ℕ → Store → Option ℕ
  pub ttl : ℕ → ℕ → Store → Option ℕ
  pub incrby : ℕ → ℕ → ℕ → Store → Store
  pub expire : ℕ → ℕ → ℕ → Store → Store
  pub get-incrby :
      (now k n : ℕ) (s : Store) → get now k (incrby now k n s) ≡ some (count (get now k s) + n)
  pub get-incrby_other :
      (now k j n : ℕ) (s : Store) → k ≢ j → get now j (incrby now k n s) ≡ get now j s
  pub get-expire : (now k j w : ℕ) (s : Store) → 0 < w → get now j (expire now k w s) ≡ get now j s
  pub ttl-expire :
      (now k w n : ℕ) (s : Store)
      → 0 < w
      → get now k s ≡ some n
      → ttl now k (expire now k w s) ≡ some w
  pub ttl-incrby_other :
      (now k j n : ℕ) (s : Store) → k ≢ j → ttl now j (incrby now k n s) ≡ ttl now j s
  pub ttl-expire_other :
      (now k j w : ℕ) (s : Store) → k ≢ j → ttl now j (expire now k w s) ≡ ttl now j s

pub record Limits : Type 0 where
  pub request_budget : ℕ
  pub token_budget : ℕ

abbrev pub request_key : ℕ → ℕ
request_key user = 2 * user

abbrev pub token_key : ℕ → ℕ
token_key user = 2 * user + 1

-- What goes wrong with Redis during an increment.
pub data Fault : Type 0 where
  no_fault pipeline_lost expire_lost : Fault

module _ (r : Redis) where
  -- `assertWithinBudget`; without a user, or where Redis cannot be reached, it allows.
  pub assert_within_budget : Limits → ℕ → Bool → Option ℕ → r.Store → Result (Unit {0})
  assert_within_budget l now reachable none s = ok tt
  assert_within_budget l now false (some user) s = ok tt
  assert_within_budget l now true (some user) s =
      if leb l.request_budget (count (r.get now (request_key user) s))
      then err (too_many_requests "Daily resume AI limit reached")
      else if leb l.token_budget (count (r.get now (token_key user) s))
      then err (too_many_requests "Daily resume AI usage limit reached")
      else ok tt

  -- The end of `incrementWithWindow`: a counter without a limit gets one.
  heal : Fault → ℕ → ℕ → ℕ → Option ℕ → r.Store → Bool × r.Store
  heal fault now key window (some left) s = (false, s)
  heal expire_lost now key window none s = (true, s)
  heal _ now key window none s = (false, r.expire now key window s)

  -- Whether it throws, and the store.
  pub increment_with_window : Fault → ℕ → ℕ → ℕ → ℕ → r.Store → Bool × r.Store
  unfolding heal
  increment_with_window pipeline_lost now key by window s = (true, s)
  increment_with_window fault now key by window s =
      let s' = r.incrby now key by s in heal fault now key window (r.ttl now key s') s'

  -- `recordUsage`, which swallows every error; `tokens` is a whole number that is not negative.
  pub record_usage : Fault → Fault → ℕ → ℕ → Option ℕ → ℕ → r.Store → r.Store
  unfolding increment_with_window
  record_usage first second now window none tokens s = s
  record_usage first second now window (some user) tokens s =
      let (threw, s') = increment_with_window first now (request_key user) 1 window s in
      if threw
      then s'
      else if ltb 0 tokens
      then (increment_with_window second now (token_key user) tokens window s').1
      else s'
