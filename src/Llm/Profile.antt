-- ===== src/Llm/Profile.antt =====
-- llm/app/infrastructure/config/profile.py: the profile that main.py gives to the use case.
mod Strong
mod Working
mod Other
use profi_notifications.Prelude.{none, ◌++◌}
use profi_notifications.Llm.Domain.{ContractorProfile}
use profi_notifications.Llm.Profile.Strong.{
  strong_skills_first, strong_skills_second, strong_skills_third,
}
use profi_notifications.Llm.Profile.Working.{working_skills_first, working_skills_second}
use profi_notifications.Llm.Profile.Other.{
  default_unsupported_skills, default_project_types, default_infrastructure_experience,
  default_integrations_experience, default_preferred_projects, default_rejected_projects,
}

abbrev pub default_profile : ContractorProfile
default_profile = record {
  strong_skills = strong_skills_first ++ strong_skills_second ++ strong_skills_third;
  working_skills = working_skills_first ++ working_skills_second;
  unsupported_skills = default_unsupported_skills;
  project_types = default_project_types;
  infrastructure_experience = default_infrastructure_experience;
  integrations_experience = default_integrations_experience;
  preferred_projects = default_preferred_projects;
  rejected_projects = default_rejected_projects;
  minimum_budget = none;
  maximum_duration_months = none;
}
