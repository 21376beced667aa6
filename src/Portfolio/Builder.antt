-- ===== src/Portfolio/Builder.antt =====
-- beleqet-jobs-nextjs/app/portfolio/portfolio/hooks/usePortfolioBuilder.ts and utils/portfolio-state.ts:
-- the local state of the builder. `now` is the clock. A save is a request: `sent` is what leaves, and
-- `saved` what happens to the state when the answer comes, with any edits in between.
pub mod Laws
use beleqet_ecosystem_update.Base.{
  ℕ, ◌==◌, not, if◌then◌else◌, Bool, true, false, Option, none, some, List, [], ◌∷◌, ◌++◌, ℤ,
  filter, member, refl,
}
use beleqet_ecosystem_update.Portfolio.Types.{
  LocalizedText, TemplateId, PortfolioSectionId, SkillCategory, ProfileBlock, PortfolioProject,
  SkillGroup, Certification, GalleryItem, ContactInfo, Meta, MasterProfileData,
  PortfolioPersistAction, section_profile, section_summary, section_projects, section_case_studies,
  section_skills, section_certifications, section_education, section_experience,
  section_social_links, section_gallery, section_contact,
}
use beleqet_ecosystem_update.Portfolio.Reorder.{
  Ordered, reorder_items, apply_order_indices, sort_by_order_index,
}

abbrev pub default_section_order : List PortfolioSectionId
default_section_order =
    section_profile ∷ section_summary ∷ section_projects ∷ section_case_studies ∷ section_skills
    ∷ section_certifications ∷ section_education ∷ section_experience ∷ section_social_links
    ∷ section_gallery ∷ section_contact ∷ []

-- The empty text is 0.
abbrev pub empty_localized : LocalizedText
empty_localized = record { en = 0; am = 0 }

-- `group` is the id that `createId("skill_group")` answers.
pub create_empty_portfolio : ℕ → ℕ → MasterProfileData
create_empty_portfolio now group = record {
  template_id = TemplateId.modern;
  industries = [];
  section_order = default_section_order;
  profile = record {
    full_name = 0;
    headline = empty_localized;
    job_title = empty_localized;
    avatar_url = 0;
    location = 0;
  };
  summary = empty_localized;
  projects = [];
  case_studies = [];
  skills =
      record { id = group; category = SkillCategory.frontend; order_index = 0; skills = [] } ∷ [];
  certifications = [];
  education = [];
  experience = [];
  social_links = [];
  gallery = [];
  contact = record { email = 0; phone = 0; website = 0; availability = empty_localized };
  meta = record { published = false; updated_at = now };
}

touch_portfolio : ℕ → MasterProfileData → MasterProfileData
touch_portfolio now d = record d { meta = record (d.meta) { updated_at = now } }

switch_template : ℕ → TemplateId → MasterProfileData → MasterProfileData
unfolding touch_portfolio
switch_template now template d = touch_portfolio now (record d { template_id = template })

pub project_order : Ordered PortfolioProject
project_order = record {
  order_index = λ p. p.order_index;
  with_index = λ n p. record p { order_index = n };
  index_set = λ n p. refl;
  set_twice = λ n m p. refl;
}

skill_order : Ordered SkillGroup
skill_order = record {
  order_index = λ g. g.order_index;
  with_index = λ n g. record g { order_index = n };
  index_set = λ n g. refl;
  set_twice = λ n m g. refl;
}

certification_order : Ordered Certification
certification_order = record {
  order_index = λ c. c.order_index;
  with_index = λ n c. record c { order_index = n };
  index_set = λ n c. refl;
  set_twice = λ n m c. refl;
}

gallery_order : Ordered GalleryItem
gallery_order = record {
  order_index = λ g. g.order_index;
  with_index = λ n g. record g { order_index = n };
  index_set = λ n g. refl;
  set_twice = λ n m g. refl;
}

pub record BuilderState : Type 0 where
  pub data_now : MasterProfileData  -- `data`
  pub dirty : Bool
  pub loaded : Bool

-- What the effect of the hook puts in place: for a user the portfolio of the server, or an empty one
-- on an error; for a visitor the local draft, shown in the template that was asked for.
pub data Source : Type 0 where
  server : Option MasterProfileData → Source
  browser : Option MasterProfileData → Option TemplateId → Source

stored_or_empty : ℕ → ℕ → Option MasterProfileData → MasterProfileData
unfolding create_empty_portfolio
stored_or_empty now group none = create_empty_portfolio now group
stored_or_empty now group (some d) = d

initial : ℕ → ℕ → Source → MasterProfileData
unfolding stored_or_empty switch_template
initial now group (server stored) = stored_or_empty now group stored
initial now group (browser draft none) = stored_or_empty now group draft
initial now group (browser draft (some t)) = switch_template now t (stored_or_empty now group draft)

hydrate : ℕ → ℕ → Source → BuilderState
unfolding initial
hydrate now group source = record {
  data_now = initial now group source;
  dirty = false;
  loaded = true;
}

update_data : ℕ → (MasterProfileData → MasterProfileData) → BuilderState → BuilderState
unfolding touch_portfolio
update_data now updater prev = record prev {
  data_now = touch_portfolio now (updater prev.data_now);
  dirty = true;
}

pub moved_projects : ℤ → ℤ → List PortfolioProject → List PortfolioProject
unfolding reorder_items apply_order_indices sort_by_order_index project_order
moved_projects from to items =
    apply_order_indices project_order
      (reorder_items (sort_by_order_index project_order items) from to)

moved_skills : ℤ → ℤ → List SkillGroup → List SkillGroup
unfolding reorder_items apply_order_indices skill_order
moved_skills from to items = apply_order_indices skill_order (reorder_items items from to)

moved_certifications : ℤ → ℤ → List Certification → List Certification
unfolding reorder_items apply_order_indices sort_by_order_index certification_order
moved_certifications from to items =
    apply_order_indices certification_order
      (reorder_items (sort_by_order_index certification_order items) from to)

moved_gallery : ℤ → ℤ → List GalleryItem → List GalleryItem
unfolding reorder_items apply_order_indices sort_by_order_index gallery_order
moved_gallery from to items =
    apply_order_indices gallery_order
      (reorder_items (sort_by_order_index gallery_order items) from to)

toggle_tag : ℕ → List ℕ → List ℕ
toggle_tag tag tags =
    if member tag tags then filter (λ t. not (t == tag)) tags else tags ++ (tag ∷ [])

-- The edits that the hook offers; `update` is `updateData` with any updater.
pub data Edit : Type 0 where
  update : (MasterProfileData → MasterProfileData) → Edit
  set_template : TemplateId → Edit
  reorder_sections reorder_projects reorder_skills : ℤ → ℤ → Edit
  reorder_certifications reorder_gallery : ℤ → ℤ → Edit
  toggle_industry : ℕ → Edit

updater_of : ℕ → Edit → MasterProfileData → MasterProfileData
unfolding switch_template moved_projects moved_skills moved_certifications moved_gallery toggle_tag
    reorder_items
updater_of now (update f) d = f d
updater_of now (set_template t) d = switch_template now t d
updater_of now (reorder_sections from to) d = record d {
  section_order = reorder_items d.section_order from to;
}
updater_of now (reorder_projects from to) d = record d {
  projects = moved_projects from to d.projects;
}
updater_of now (reorder_skills from to) d = record d { skills = moved_skills from to d.skills }
updater_of now (reorder_certifications from to) d = record d {
  certifications = moved_certifications from to d.certifications;
}
updater_of now (reorder_gallery from to) d = record d { gallery = moved_gallery from to d.gallery }
updater_of now (toggle_industry tag) d = record d { industries = toggle_tag tag d.industries }

pub edit : ℕ → Edit → BuilderState → BuilderState
unfolding update_data updater_of
edit now e s = update_data now (updater_of now e) s

pub edits : List (ℕ × Edit) → BuilderState → BuilderState
unfolding edit
edits [] s = s
edits ((now, e) ∷ es) s = edits es (edit now e s)

-- What `persist` sends; without a user nothing is sent and the sign-in dialog opens.
pub payload : PortfolioPersistAction → MasterProfileData → MasterProfileData
payload PortfolioPersistAction.publish d = record d { meta = record (d.meta) { published = true } }
payload PortfolioPersistAction.save d = d
payload PortfolioPersistAction.export d = d

sent : Bool → PortfolioPersistAction → BuilderState → Option MasterProfileData
unfolding payload
sent signed_in action s = if signed_in then some (payload action s.data_now) else none

-- The end of `persist`, on the state there is when the answer comes.
saved : Bool → MasterProfileData → BuilderState → BuilderState
saved ok p prev = if ok then record prev { data_now = p; dirty = false } else prev

-- A whole save: what leaves, the edits that are made before the answer, and the answer.
pub persist : Bool → PortfolioPersistAction → Bool → List (ℕ × Edit) → BuilderState → BuilderState
unfolding sent edits saved
persist signed_in action ok meanwhile s = elim (sent signed_in action s) [
  | none ↦ edits meanwhile s
  | some p ↦ saved ok p (edits meanwhile s)
]

-- `saveDraftLocally`: what goes to the browser's storage, and the state.
save_draft_locally : BuilderState → MasterProfileData × BuilderState
save_draft_locally s = (s.data_now, record s { dirty = false })
