-- ===== src/Budget/Tests.antt =====
-- The budget at concrete inputs, over a small model of Redis.
use beleqet_ecosystem_update.Base.{
  ℕ, ◌+◌, ◌<◌, ◌≡◌, ◌≢◌, refl, ltb, if◌then◌else◌, Option, none, some, Dict, [], lookup, insert,
  lookup-insert, arith, ◌∷◌, ◌-◌,
}
use beleqet_ecosystem_update.Budget.{Redis, Limits, count}

-- A counter with the second in which it expires, if it does.
abbrev Entry : Type 0
Entry = ℕ × Option ℕ

abbrev alive : ℕ → Option Entry → Option Entry
alive now none = none
alive now (some (n, none)) = some (n, none)
alive now (some (n, some d)) = if ltb now d then some (n, some d) else none

abbrev value : Option Entry → Option ℕ
value none = none
value (some (n, _)) = some n

abbrev left_of : ℕ → Option Entry → Option ℕ
left_of now (some (n, some d)) = some (d - now)
left_of now _ = none

abbrev added : ℕ → Option Entry → Entry
added n none = (n, none)
added n (some (m, d)) = (m + n, d)

abbrev limit : ℕ → ℕ → ℕ → Option Entry → Dict Entry → Dict Entry
limit now k w none d = d
limit now k w (some (n, _)) d = insert k (n, some (now + w)) d

abbrev get : ℕ → ℕ → Dict Entry → Option ℕ
get now k d = value (alive now (lookup k d))

abbrev ttl : ℕ → ℕ → Dict Entry → Option ℕ
ttl now k d = left_of now (alive now (lookup k d))

abbrev incrby : ℕ → ℕ → ℕ → Dict Entry → Dict Entry
incrby now k n d = insert k (added n (alive now (lookup k d))) d

abbrev expire : ℕ → ℕ → ℕ → Dict Entry → Dict Entry
expire now k w d = limit now k w (alive now (lookup k d)) d

get-incrby :
    (now k n : ℕ) (s : Dict Entry) → get now k (incrby now k n s) ≡ some (count (get now k s) + n)
get-incrby now k n s = ground (arith, lookup-insert k k (added n (alive now (lookup k s))) s)

get-incrby_other :
    (now k j n : ℕ) (s : Dict Entry) → k ≢ j → get now j (incrby now k n s) ≡ get now j s
get-incrby_other now k j n s ne =
    ground (arith, lookup-insert k j (added n (alive now (lookup k s))) s)

get-limit :
    (now k j w : ℕ) (s : Dict Entry) (e : Option Entry)
    → 0 < w
    → alive now (lookup k s) ≡ e
    → get now j (limit now k w e s) ≡ get now j s
get-limit now k j w s none p h = refl
get-limit now k j w s (some (n, d)) p h = ground (arith, lookup-insert k j (n, some (now + w)) s)

ttl-limit :
    (now k w n : ℕ) (s : Dict Entry) (e : Option Entry)
    → 0 < w
    → value e ≡ some n
    → ttl now k (limit now k w e s) ≡ some w
ttl-limit now k w n s none p h = cc
ttl-limit now k w n s (some (m, d)) p h = ground (arith, lookup-insert k k (m, some (now + w)) s)

ttl-limit_other :
    (now k j w : ℕ) (s : Dict Entry) (e : Option Entry)
    → k ≢ j
    → ttl now j (limit now k w e s) ≡ ttl now j s
ttl-limit_other now k j w s none ne = refl
ttl-limit_other now k j w s (some (m, d)) ne =
    ground (arith, lookup-insert k j (m, some (now + w)) s)

ttl-incrby_other :
    (now k j n : ℕ) (s : Dict Entry) → k ≢ j → ttl now j (incrby now k n s) ≡ ttl now j s
ttl-incrby_other now k j n s ne =
    ground (arith, lookup-insert k j (added n (alive now (lookup k s))) s)

abbrev redis : Redis
redis = record {
  Store = Dict Entry;
  get = get;
  ttl = ttl;
  incrby = incrby;
  expire = expire;
  get-incrby = get-incrby;
  get-incrby_other = get-incrby_other;
  get-expire = λ now k j w s p. get-limit now k j w s (alive now (lookup k s)) p refl;
  ttl-expire = λ now k w n s p h. ttl-limit now k w n s (alive now (lookup k s)) p h;
  ttl-incrby_other = ttl-incrby_other;
  ttl-expire_other = λ now k j w s ne. ttl-limit_other now k j w s (alive now (lookup k s)) ne;
}

-- User 3 has a counter of requests that an earlier fault left without a limit.
abbrev counters : Dict Entry
counters = (6, (4, none)) ∷ []

abbrev limits : Limits
limits = record { request_budget = 50; token_budget = 100_000 }
