-- ===== src/Llm/Prompts.antt =====
-- llm/app/infrastructure/llm/prompts.py.
use profi_notifications.Prelude.{
  Option, none, some, List, [], ◌∷◌, ◌++◌, Text, codes, join, is_empty, if◌then◌else◌,
}
use profi_notifications.Llm.Domain.{ContractorProfile}
use profi_notifications.Llm.Listing.{Listing, Budget}

-- A pair of the role and the text.
pub record Message : Type 0 where
  pub role : Text
  pub content : Text

abbrev pub newline : Text
newline = 10 ∷ []

abbrev pub system_before : Text
system_before =
    codes "Ты помощник фрилансера-разработчика. По заказу с доски Profi.ru оцени,"
    ++ newline
    ++ codes "насколько он подходит исполнителю, и заполни структуру строго по схеме."
    ++ newline
    ++ newline
    ++ codes "Профиль исполнителя:"
    ++ newline

abbrev pub system_after : Text
system_after =
    newline
    ++ newline
    ++ codes "Правила:"
    ++ newline
    ++ codes "- detected_skills — какие технологии/навыки реально требует заказ."
    ++ newline
    ++ codes "- unsupported_hits — те из них, что попадают в «Не поддерживаем»."
    ++ newline
    ++ codes "- is_rejected_type = true, если заказ относится к «Отклоняем» (учебные работы,"
    ++ newline
    ++ codes "  чистый фронтенд, дизайн, накрутка)."
    ++ newline
    ++ codes "- suitability_score (0-100): выше — если заказ ложится на сильные навыки и"
    ++ newline
    ++ codes "  предпочтительные проекты; ниже — если совпадение слабое."
    ++ newline
    ++ codes "- summary — 1-2 предложения по-русски, суть заказа. Не выдумывай фактов."

unfoldable pub line : Text → List Text → Text
line label items =
    codes "- "
    ++ label
    ++ codes ": "
    ++ (if is_empty items then codes "—" else join (codes ", ") items)

unfoldable pub profile_block : ContractorProfile → Text
unfolding line
profile_block profile = join newline (
    line (codes "Сильные навыки") profile.strong_skills
    ∷ line (codes "Рабочие навыки") profile.working_skills
    ∷ line (codes "Не поддерживаем") profile.unsupported_skills
    ∷ line (codes "Типы проектов") profile.project_types
    ∷ line (codes "Опыт инфраструктуры") profile.infrastructure_experience
    ∷ line (codes "Опыт интеграций") profile.integrations_experience
    ∷ line (codes "Предпочтительно") profile.preferred_projects
    ∷ line (codes "Отклоняем") profile.rejected_projects
    ∷ [])

abbrev budget_line : Option Budget → List Text
budget_line none = []
budget_line (some budget) = (codes "Бюджет: " ++ budget.raw) ∷ []

-- An empty location is left out too.
abbrev location_line : Option Text → List Text
location_line none = []
location_line (some []) = []
location_line (some (c ∷ t)) = (codes "Локация: " ++ c ∷ t) ∷ []

abbrev tags_line : List Text → List Text
tags_line tags =
    if is_empty tags then [] else (codes "Метки клиента: " ++ join (codes ", ") tags) ∷ []

unfoldable pub listing_block : Listing → Text
listing_block listing = join newline (
    ((codes "Заголовок: " ++ listing.title) ∷ (codes "Описание: " ++ listing.description) ∷ [])
    ++ budget_line listing.budget
    ++ (if listing.is_remote then codes "Формат: удалённо" ∷ [] else [])
    ++ location_line listing.location
    ++ tags_line listing.client_tags)

unfoldable pub build_messages : Listing → ContractorProfile → List Message
unfolding profile_block listing_block
build_messages listing profile =
    record {
      role = codes "system";
      content = system_before ++ profile_block profile ++ system_after;
    }
    ∷ record { role = codes "human"; content = listing_block listing }
    ∷ []
