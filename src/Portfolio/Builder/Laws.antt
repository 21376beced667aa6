-- ===== src/Portfolio/Builder/Laws.antt =====
-- Edits of the portfolio builder, and saves with edits made while they run
-- (hooks/usePortfolioBuilder.ts).
use beleqet_ecosystem_update.Base.{ℕ, ◌≡◌, refl, ap, true, false, List, [], ◌∷◌, ℤ}
use beleqet_ecosystem_update.Portfolio.Types.{PortfolioPersistAction}
use beleqet_ecosystem_update.Portfolio.Reorder.{apply_order_indices, sort_by_order_index}
use beleqet_ecosystem_update.Portfolio.Reorder.Indices.{moved_back}
use beleqet_ecosystem_update.Portfolio.Builder.{
  BuilderState, Edit, reorder_projects, edit, edits, persist, payload, moved_projects,
  project_order,
}

-- Dragging a project from one place to another and back leaves the projects as they were shown
-- before, with the indices 0, 1, 2 and so on in that order, and the builder dirty; for any two
-- places and at any times.
pub reorder_projects_back :
    (now later : ℕ) (from to : ℤ) (s : BuilderState)
    → let e = edit later (reorder_projects to from) (edit now (reorder_projects from to) s) in
      (e.data_now.projects
        ≡ apply_order_indices project_order (sort_by_order_index project_order s.data_now.projects))
      × (e.dirty ≡ true)
unfolding edit moved_projects
reorder_projects_back now later from to s =
    (moved_back project_order s.data_now.projects from to, refl)

edits-loaded : (es : List (ℕ × Edit)) (s : BuilderState) → (edits es s).loaded ≡ s.loaded
unfolding edits
edits-loaded [] s = refl
edits-loaded ((now, e) ∷ es) s = edits-loaded es (edit now e s)

-- After a save that the server accepted, the builder holds what was sent when the save began and
-- is marked as saved, whatever edits were made while the request was running: those are lost.
pub persist_drops_edits :
    (action : PortfolioPersistAction) (meanwhile : List (ℕ × Edit)) (s : BuilderState)
    → persist true action true meanwhile s
      ≡ record { data_now = payload action s.data_now; dirty = false; loaded = s.loaded }
unfolding persist
persist_drops_edits action meanwhile s =
    ap (λ l. record { data_now = payload action s.data_now; dirty = false; loaded = l })
      (edits-loaded meanwhile s)
