-- ===== src/Portfolio/Tests.antt =====
-- The theorems of the portfolio builder at concrete inputs.

use beleqet_ecosystem_update.Base.{ℕ, ◌≡◌, refl, true, false, List, [], ◌∷◌, pos, negsuc}
use beleqet_ecosystem_update.Portfolio.Types.{PortfolioProject}
use beleqet_ecosystem_update.Portfolio.Reorder.{
  reorder_items, apply_order_indices, sort_by_order_index,
}
use beleqet_ecosystem_update.Portfolio.Builder.{
  BuilderState, Edit, create_empty_portfolio, empty_localized, edit, project_order,
}
use beleqet_ecosystem_update.Portfolio.Builder.Laws.{reorder_projects_back}

abbrev project : ℕ → ℕ → PortfolioProject
project id place = record {
  id = id;
  title = empty_localized;
  description = empty_localized;
  technologies = [];
  images = [];
  links = [];
  github_url = 0;
  live_demo_url = 0;
  tags = [];
  featured = false;
  order_index = place;
}

abbrev builder : BuilderState
builder = record {
  data_now = record (create_empty_portfolio 5 9) {
    projects = project 1 2 ∷ project 2 0 ∷ project 3 1 ∷ [];
  };
  dirty = false;
  loaded = true;
}

abbrev places : List ℕ
places = 1 ∷ 2 ∷ 3 ∷ []

-- The first item goes to the end; an index before the list does nothing.
moved : reorder_items places (pos 0) (pos 2) ≡ 2 ∷ 3 ∷ 1 ∷ []
unfolding reorder_items
moved = refl

not_moved : reorder_items places (negsuc 0) (pos 1) ≡ places
unfolding reorder_items
not_moved = refl

reorder_projects_back_example :
    let e =
      edit 7
        (Edit.reorder_projects (pos 2) (pos 0))
        (edit 6 (Edit.reorder_projects (pos 0) (pos 2)) builder) in
    (e.data_now.projects
      ≡ apply_order_indices project_order
          (sort_by_order_index project_order builder.data_now.projects))
    × (e.dirty ≡ true)
reorder_projects_back_example = reorder_projects_back 6 7 (pos 0) (pos 2) builder
