-- ===== src/Availability/Overlap.antt =====
-- helpers/common-availability.helper.ts: the windows in which two users are both available, by two
-- pointers. A pointer is the rest of its list; times are milliseconds.
pub mod Laws
use Prim.Native.String.{String}
use beleqet_ecosystem_update.Base.{
  ℕ, suc, true, false, ltb, if◌then◌else◌, List, [], ◌∷◌, length, ◌+◌, ◌≤◌, ◌<◌, All,
}

pub record Slot : Type 0 where
  pub id : ℕ
  pub user_id : ℕ
  pub start_time : ℕ
  pub end_time : ℕ
  pub timezone : String

-- `AvailabilityOverlap`
pub record Window : Type 0 where
  pub start_time : ℕ
  pub end_time : ℕ
  pub timezone : String

-- The overlap of two slots, if it is not empty, in front of the others.
pub push_overlap : Slot → Slot → List Window → List Window
push_overlap e c rest =
    let overlap_start = if ltb c.start_time e.start_time then e.start_time else c.start_time in
    let overlap_end = if ltb e.end_time c.end_time then e.end_time else c.end_time in
    if ltb overlap_start overlap_end
    then record { start_time = overlap_start; end_time = overlap_end; timezone = e.timezone } ∷ rest
    else rest

-- The loop of `findCommonAvailability`: the slot that ends first is left behind.
pub overlaps : List Slot → List Slot → List Window
overlaps [] cs = []
overlaps (e ∷ es) [] = []
overlaps (e ∷ es) (c ∷ cs) = push_overlap e c (elim (ltb e.end_time c.end_time) [
  | true ↦ overlaps es (c ∷ cs)
  | false ↦ overlaps (e ∷ es) cs
])
