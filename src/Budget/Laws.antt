-- ===== src/Budget/Laws.antt =====
-- Recording a use, and the check of the budget (ai-budget.service.ts).
use beleqet_ecosystem_update.Base.{
  ℕ, ◌+◌, ◌<◌, ◌≡◌, ◌≢◌, refl, inl, inr, some, Option-cases, arith, sym, Bool-cases, ltb, false,
}
use beleqet_ecosystem_update.Budget.{
  Redis, no_fault, count, request_key, token_key, increment_with_window, record_usage, heal,
}

module _ (r : Redis) (now window : ℕ) (positive : 0 < window) where
  -- What an increment that meets no fault does to its own counter and to another one.
  record Incremented (key by other : ℕ) (s s' : r.Store) : Type 0 where
    counted : r.get now key s' ≡ some (count (r.get now key s) + by)
    other_kept : key ≢ other → r.get now other s' ≡ r.get now other s
    limited : (left : ℕ) × (r.ttl now key s' ≡ some left)
    other_limit : key ≢ other → r.ttl now other s' ≡ r.ttl now other s

  increment_with_window-Incremented :
      (key by other : ℕ) (s : r.Store)
      → (increment_with_window r no_fault now key by window s).0 ≡ false
        × Incremented key by other s (increment_with_window r no_fault now key by window s).1
  unfolding increment_with_window heal
  increment_with_window-Incremented key by other s =
      let s' = r.incrby now key by s in
      elim (Option-cases (r.ttl now key s')) [
        | inl unlimited ↦
            rw (unlimited, heal)
              (
                refl,
                record {
                  counted =
                      rw (r.get-expire now key key window s' positive) (r.get-incrby now key by s);
                  other_kept = λ ne.
                      rw (r.get-expire now key other window s' positive)
                        (r.get-incrby_other now key other by s ne);
                  limited = (
                    window,
                    r.ttl-expire now key window _ s' positive (r.get-incrby now key by s),
                  );
                  other_limit = λ ne.
                      rw (r.ttl-expire_other now key other window s' ne)
                        (r.ttl-incrby_other now key other by s ne);
                },
              )
        | inr (left, limit) ↦
            rw (limit, heal)
              (
                refl,
                record {
                  counted = r.get-incrby now key by s;
                  other_kept = r.get-incrby_other now key other by s;
                  limited = (left, limit);
                  other_limit = r.ttl-incrby_other now key other by s;
                },
              )
      ]

  request_key_apart : (user : ℕ) → request_key user ≢ token_key user
  request_key_apart user h = omega arith

  -- A use that is recorded without a fault counts one request and its tokens, and leaves no counter that
  -- it has written without a limit, also where an earlier fault had left one.
  pub record_usage_counts :
      (user tokens : ℕ) (s : r.Store)
      → let s' = record_usage r no_fault no_fault now window (some user) tokens s in
        (count (r.get now (request_key user) s') ≡ count (r.get now (request_key user) s) + 1)
        × (count (r.get now (token_key user) s') ≡ count (r.get now (token_key user) s) + tokens)
        × ((left : ℕ) × (r.ttl now (request_key user) s' ≡ some left))
        × (0 < tokens → (left : ℕ) × (r.ttl now (token_key user) s' ≡ some left))
  unfolding record_usage
  record_usage_counts user tokens s =
      let k = request_key user in
      let j = token_key user in
      let (calm, one) = increment_with_window-Incremented k 1 j s in
      let s1 = (increment_with_window r no_fault now k 1 window s).1 in
      let two = (increment_with_window-Incremented j tokens k s1).1 in
      let apart = request_key_apart user in
      let back : j ≢ k = λ h. apart (sym h) in
      rw (calm, record_usage)
        (elim (Bool-cases (ltb 0 tokens)) [
          | inl some_tokens ↦
              rw (some_tokens, record_usage)
                (
                  rw (two.other_kept back) (rw one.counted refl),
                  rw two.counted (rw (one.other_kept apart) refl),
                  (one.limited.0, rw (two.other_limit back) one.limited.1),
                  λ _. two.limited,
                )
          | inr no_tokens ↦
              rw (no_tokens, record_usage)
                (
                  rw one.counted refl,
                  rw (one.other_kept apart) (ground arith),
                  one.limited,
                  λ positive. ground arith,
                )
        ])
