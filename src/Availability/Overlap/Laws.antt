-- ===== src/Availability/Overlap/Laws.antt =====
-- The times that `findCommonAvailability` covers (helpers/common-availability.helper.ts).
use beleqet_ecosystem_update.Base.{
  ℕ, ◌≤◌, ◌<◌, ◌≡◌, refl, Bool, false, ◌&&◌, ◌||◌, List, [], ◌∷◌, All, arith, Bool-cases, inl, inr,
  ltb, leb,
}
use beleqet_ecosystem_update.Availability.Overlap.{Slot, Window, push_overlap, overlaps}

-- Slots and windows are half-open intervals.
abbrev pub in_slot : ℕ → Slot → Bool
in_slot t s = leb s.start_time t && ltb t s.end_time

abbrev pub covers : List Slot → ℕ → Bool
covers [] t = false
covers (s ∷ ss) t = in_slot t s || covers ss t

abbrev pub in_windows : List Window → ℕ → Bool
in_windows [] t = false
in_windows (w ∷ ws) t = (leb w.start_time t && ltb t w.end_time) || in_windows ws t

-- Slots in order of time that do not overlap, which is what `createAvailability` and the order of
-- the query give.
abbrev pub IsOrdered : List Slot → Type 0
IsOrdered [] = Unit
IsOrdered (s ∷ ss) =
    (s.start_time ≤ s.end_time) × All (λ r. s.end_time ≤ r.start_time) ss × IsOrdered ss

push_overlap_lem :
    (e c : Slot) (ws : List Window) (t : ℕ)
    → in_windows (push_overlap e c ws) t ≡ ((in_slot t e && in_slot t c) || in_windows ws t)
unfolding push_overlap
push_overlap_lem e c ws t = ground arith

late_uncovered :
    (bound t : ℕ) (ss : List Slot)
    → All (λ r. bound ≤ r.start_time) ss
    → t < bound
    → covers ss t ≡ false
late_uncovered bound t [] a h = refl
late_uncovered bound t (s ∷ ss) a h = ground (arith, late_uncovered bound t ss a.1 h)

-- For slots in order that do not overlap, a time lies in one of the common windows exactly if it lies
-- in a slot of the employer and in a slot of the candidate.
pub overlaps-covers :
    (es cs : List Slot) (t : ℕ)
    → IsOrdered es
    → IsOrdered cs
    → in_windows (overlaps es cs) t ≡ (covers es t && covers cs t)
unfolding overlaps
overlaps-covers [] cs t he hc = refl
overlaps-covers (e ∷ es) [] t he hc = ground arith
overlaps-covers (e ∷ es) (c ∷ cs) t he hc = elim (Bool-cases (ltb e.end_time c.end_time)) [
  | inl first ↦ rw (push_overlap_lem e c _ t) (
      rw first (
        ground (arith, overlaps-covers es (c ∷ cs) t he.2 hc, late_uncovered c.end_time t cs hc.1)))
  | inr later ↦ rw (push_overlap_lem e c _ t) (
      rw later (
        ground (arith, overlaps-covers (e ∷ es) cs t he hc.2, late_uncovered e.end_time t es he.1)))
]
