-- ===== src/Llm/Profile/Other.antt =====
-- DEFAULT_PROFILE of llm/app/infrastructure/config/profile.py: the short lists.
use profi_notifications.Prelude.{List, [], ◌∷◌, Text, codes}

abbrev pub default_unsupported_skills : List Text
default_unsupported_skills =
    codes "1C-разработка"
    ∷ codes "разработка конфигурации 1С"
    ∷ codes "доработка конфигурации 1С"
    ∷ codes "1С Бухгалтерия"
    ∷ codes "Bitrix frontend"
    ∷ codes "верстка шаблона 1С-Битрикс"
    ∷ codes "нативная iOS-разработка"
    ∷ codes "Swift"
    ∷ codes "Objective-C"
    ∷ codes "нативная Android-разработка"
    ∷ codes "Kotlin"
    ∷ codes "Java Android"
    ∷ codes "PHP"
    ∷ codes "Laravel"
    ∷ codes "WordPress"
    ∷ codes "Tilda"
    ∷ codes "Тильда"
    ∷ codes "конструктор сайтов"
    ∷ codes "чистая верстка без backend"
    ∷ []

abbrev pub default_project_types : List Text
default_project_types =
    codes "backend"
    ∷ codes "бэкенд"
    ∷ codes "api"
    ∷ codes "microservices"
    ∷ codes "микросервисы"
    ∷ codes "fullstack"
    ∷ codes "frontend"
    ∷ codes "web"
    ∷ codes "сайт"
    ∷ codes "лендинг"
    ∷ codes "интернет-магазин"
    ∷ codes "telegram_bot"
    ∷ codes "telegram_mini_app"
    ∷ codes "vk_bot"
    ∷ codes "whatsapp_bot"
    ∷ codes "chatbot"
    ∷ codes "devops"
    ∷ codes "machine_learning"
    ∷ codes "data_science"
    ∷ codes "computer_vision"
    ∷ codes "llm"
    ∷ codes "rag"
    ∷ codes "ai_agent"
    ∷ codes "automation"
    ∷ codes "integration"
    ∷ codes "parsing"
    ∷ codes "data_processing"
    ∷ codes "dashboard"
    ∷ codes "seo"
    ∷ []

abbrev pub default_infrastructure_experience : List Text
default_infrastructure_experience =
    codes "Docker"
    ∷ codes "Docker Compose"
    ∷ codes "Docker Swarm"
    ∷ codes "Linux"
    ∷ codes "VPS"
    ∷ codes "Nginx"
    ∷ codes "Traefik"
    ∷ codes "GitHub Actions"
    ∷ codes "Jenkins"
    ∷ codes "Ansible"
    ∷ codes "Prometheus"
    ∷ codes "Grafana"
    ∷ codes "Loki"
    ∷ codes "Redis"
    ∷ codes "RabbitMQ"
    ∷ codes "Kafka"
    ∷ codes "PostgreSQL"
    ∷ codes "ClickHouse"
    ∷ codes "S3"
    ∷ codes "CI/CD"
    ∷ codes "SSL"
    ∷ codes "HTTPS"
    ∷ codes "мониторинг"
    ∷ codes "логирование"
    ∷ codes "резервное копирование"
    ∷ codes "автоматический деплой"
    ∷ []

abbrev pub default_integrations_experience : List Text
default_integrations_experience =
    codes "Telegram"
    ∷ codes "Telegram Bot API"
    ∷ codes "Telegram Mini Apps"
    ∷ codes "VK API"
    ∷ codes "WhatsApp Business API"
    ∷ codes "Instagram API"
    ∷ codes "Bitrix24"
    ∷ codes "amoCRM"
    ∷ codes "CRM"
    ∷ codes "LLM API"
    ∷ codes "OpenAI API"
    ∷ codes "Claude API"
    ∷ codes "Gemini API"
    ∷ codes "GigaChat API"
    ∷ codes "DeepSeek API"
    ∷ codes "Qwen API"
    ∷ codes "payment APIs"
    ∷ codes "YooKassa"
    ∷ codes "CloudPayments"
    ∷ codes "Stripe"
    ∷ codes "Google Sheets"
    ∷ codes "Google Drive"
    ∷ codes "Google Calendar"
    ∷ codes "email"
    ∷ codes "SMTP"
    ∷ codes "marketplace APIs"
    ∷ codes "webhooks"
    ∷ codes "REST API"
    ∷ codes "GraphQL"
    ∷ []

abbrev pub default_preferred_projects : List Text
default_preferred_projects =
    codes "Python backend"
    ∷ codes "разработка backend на Python"
    ∷ codes "создание API"
    ∷ codes "микросервисная архитектура"
    ∷ codes "Telegram-боты"
    ∷ codes "Telegram Mini Apps"
    ∷ codes "чат-боты для бизнеса"
    ∷ codes "боты с оплатой и подписками"
    ∷ codes "LLM integrations"
    ∷ codes "интеграция ChatGPT и других LLM"
    ∷ codes "AI-ассистенты"
    ∷ codes "AI-агенты"
    ∷ codes "RAG"
    ∷ codes "базы знаний"
    ∷ codes "поиск по документам"
    ∷ codes "обработка PDF и документов"
    ∷ codes "автоматизация бизнес-процессов"
    ∷ codes "CRM-интеграции"
    ∷ codes "интеграции по API"
    ∷ codes "парсинг и сбор данных"
    ∷ codes "обработка данных"
    ∷ codes "ETL"
    ∷ codes "аналитические сервисы"
    ∷ codes "машинное обучение"
    ∷ codes "рекомендательные системы"
    ∷ codes "компьютерное зрение"
    ∷ codes "DevOps и развертывание"
    ∷ codes "мониторинг инфраструктуры"
    ∷ codes "личные кабинеты и админ-панели"
    ∷ codes "MVP веб-сервисов"
    ∷ []

abbrev pub default_rejected_projects : List Text
default_rejected_projects =
    codes "учебные работы"
    ∷ codes "курсовые работы"
    ∷ codes "дипломные работы"
    ∷ codes "решение лабораторных работ"
    ∷ codes "накрутка"
    ∷ codes "накрутка подписчиков"
    ∷ codes "накрутка просмотров"
    ∷ codes "спам"
    ∷ codes "массовый спам"
    ∷ codes "обход блокировок аккаунтов"
    ∷ codes "взлом"
    ∷ codes "кража аккаунтов"
    ∷ codes "вредоносное ПО"
    ∷ codes "казино"
    ∷ codes "ставки"
    ∷ []
