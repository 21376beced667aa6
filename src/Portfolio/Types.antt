-- ===== src/Portfolio/Types.antt =====
-- beleqet-jobs-nextjs/app/portfolio/portfolio/types/index.ts: the master profile. Texts, URLs and ids
-- are numbers, since the builder only copies and compares them; instants are milliseconds.
use beleqet_ecosystem_update.Base.{ℕ, Bool, List}

pub record LocalizedText : Type 0 where
  pub en : ℕ
  pub am : ℕ

pub data TemplateId : Type 0 where
  modern minimal professional creative : TemplateId

pub data PortfolioSectionId : Type 0 where
  section_profile section_summary section_projects section_case_studies : PortfolioSectionId
  section_skills section_certifications section_education : PortfolioSectionId
  section_experience section_social_links section_gallery section_contact : PortfolioSectionId

pub data SkillLevel : Type 0 where
  beginner intermediate advanced expert : SkillLevel

pub data SkillCategory : Type 0 where
  frontend backend cloud devops security design languages other : SkillCategory

pub record ProfileBlock : Type 0 where
  pub full_name : ℕ
  pub headline : LocalizedText
  pub job_title : LocalizedText
  pub avatar_url : ℕ
  pub location : ℕ

-- `{ label, url }`, and `{ label, value }` of a metric.
pub record Labelled : Type 0 where
  pub label : ℕ
  pub value : ℕ

pub record PortfolioProject : Type 0 where
  pub id : ℕ
  pub title : LocalizedText
  pub description : LocalizedText
  pub technologies : List ℕ
  pub images : List ℕ
  pub links : List Labelled
  pub github_url : ℕ
  pub live_demo_url : ℕ
  pub tags : List ℕ
  pub featured : Bool
  pub order_index : ℕ

pub record CaseStudy : Type 0 where
  pub id : ℕ
  pub title : LocalizedText
  pub problem : LocalizedText
  pub solution : LocalizedText
  pub approach : LocalizedText
  pub results : LocalizedText
  pub screenshots : List ℕ
  pub metrics : List Labelled
  pub order_index : ℕ

pub record SkillItem : Type 0 where
  pub id : ℕ
  pub name : LocalizedText
  pub level : SkillLevel
  pub years_of_experience : ℕ
  pub order_index : ℕ

pub record SkillGroup : Type 0 where
  pub id : ℕ
  pub category : SkillCategory
  pub skills : List SkillItem
  pub order_index : ℕ

pub record Certification : Type 0 where
  pub id : ℕ
  pub issuer : ℕ
  pub certificate_name : LocalizedText
  pub credential_url : ℕ
  pub issue_date : ℕ
  pub expiry_date : ℕ
  pub order_index : ℕ

pub record EducationEntry : Type 0 where
  pub id : ℕ
  pub institution : LocalizedText
  pub degree : LocalizedText
  pub field : LocalizedText
  pub start_year : ℕ
  pub end_year : ℕ
  pub description : LocalizedText
  pub order_index : ℕ

pub record ExperienceEntry : Type 0 where
  pub id : ℕ
  pub role : LocalizedText
  pub company : LocalizedText
  pub location : ℕ
  pub start_date : ℕ
  pub end_date : ℕ
  pub description : LocalizedText
  pub order_index : ℕ

pub record SocialLink : Type 0 where
  pub id : ℕ
  pub platform : ℕ
  pub url : ℕ
  pub order_index : ℕ

pub record GalleryItem : Type 0 where
  pub id : ℕ
  pub title : LocalizedText
  pub image_url : ℕ
  pub caption : LocalizedText
  pub order_index : ℕ

pub record ContactInfo : Type 0 where
  pub email : ℕ
  pub phone : ℕ
  pub website : ℕ
  pub availability : LocalizedText

pub record Meta : Type 0 where
  pub published : Bool
  pub updated_at : ℕ

-- `version` is always 1.
pub record MasterProfileData : Type 0 where
  pub template_id : TemplateId
  pub industries : List ℕ
  pub section_order : List PortfolioSectionId
  pub profile : ProfileBlock
  pub summary : LocalizedText
  pub projects : List PortfolioProject
  pub case_studies : List CaseStudy
  pub skills : List SkillGroup
  pub certifications : List Certification
  pub education : List EducationEntry
  pub experience : List ExperienceEntry
  pub social_links : List SocialLink
  pub gallery : List GalleryItem
  pub contact : ContactInfo
  pub meta : Meta

pub data PortfolioPersistAction : Type 0 where
  save export publish : PortfolioPersistAction
