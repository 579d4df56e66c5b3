-- ===== src/Llm/Profile/Strong.antt =====
-- DEFAULT_PROFILE of llm/app/infrastructure/config/profile.py: strong_skills.
use profi_notifications.Prelude.{List, [], ◌∷◌, Text, codes}

abbrev pub strong_skills_first : List Text
strong_skills_first =
    codes "Python"
    ∷ codes "питон"
    ∷ codes "Python-разработчик"
    ∷ codes "Python разработчик"
    ∷ codes "backend"
    ∷ codes "бэкенд"
    ∷ codes "бекенд"
    ∷ codes "бэк"
    ∷ codes "серверная часть"
    ∷ codes "разработка backend"
    ∷ codes "backend-разработка"
    ∷ codes "разработка API"
    ∷ codes "создание API"
    ∷ codes "REST API"
    ∷ codes "REST"
    ∷ codes "веб-сервис"
    ∷ codes "микросервис"
    ∷ codes "микросервисы"
    ∷ codes "серверное приложение"
    ∷ codes "личный кабинет"
    ∷ codes "админ-панель"
    ∷ codes "админка"
    ∷ codes "панель управления"
    ∷ codes "FastAPI"
    ∷ codes "Django"
    ∷ codes "Flask"
    ∷ codes "PostgreSQL"
    ∷ codes "Postgres"
    ∷ codes "база данных"
    ∷ codes "проектирование базы данных"
    ∷ codes "SQL"
    ∷ codes "SQLAlchemy"
    ∷ codes "Redis"
    ∷ codes "RabbitMQ"
    ∷ codes "очередь сообщений"
    ∷ codes "фоновые задачи"
    ∷ codes "асинхронная обработка"
    ∷ codes "TaskIQ"
    ∷ codes "Celery"
    ∷ codes "Docker"
    ∷ codes "Docker Compose"
    ∷ codes "интеграция"
    ∷ codes "интеграция сервисов"
    ∷ codes "интеграция по API"
    ∷ codes "подключение API"
    ∷ codes "работа с API"
    ∷ codes "внешний API"
    ∷ codes "сторонний сервис"
    ∷ codes "обмен данными"
    ∷ codes "синхронизация данных"
    ∷ codes "вебхуки"
    ∷ codes "webhook"
    ∷ codes "настроить вебхук"
    ∷ codes "подключить сервис"
    ∷ codes "связать сервисы"
    ∷ codes "интегрировать сайт"
    ∷ codes "интеграция с CRM"
    ∷ codes "CRM-интеграции"
    ∷ codes "интеграция с Битрикс24"
    ∷ codes "Bitrix24"
    ∷ codes "АмоCRM"
    ∷ codes "amoCRM"
    ∷ codes "интеграция с телефонией"
    ∷ codes "интеграция с платежной системой"
    ∷ codes "прием платежей"
    ∷ codes "онлайн-оплата"
    ∷ codes "платежный шлюз"
    ∷ codes "ЮKassa"
    ∷ codes "YooKassa"
    ∷ codes "CloudPayments"
    ∷ codes "Stripe"
    ∷ codes "payment APIs"
    ∷ codes "интеграция с маркетплейсом"
    ∷ codes "интеграция с сайтом"
    ∷ codes "интеграция с мобильным приложением"
    ∷ codes "Telegram"
    ∷ codes "Telegram API"
    ∷ codes "Telegram Bot API"
    ∷ codes "Telegram-бот"
    ∷ codes "Telegram бот"
    ∷ codes "телеграм-бот"
    ∷ codes "телеграм бот"
    ∷ codes "тг бот"
    ∷ codes "бот в телеграм"
    ∷ codes "бот для телеграма"
    ∷ codes "чат-бот"
    ∷ codes "чат бот"
    ∷ codes "чатбот"
    ∷ codes "бот под ключ"
    ∷ codes "создать бота"
    ∷ codes "написать бота"
    ∷ codes "разработать бота"
    ∷ codes "бот для бизнеса"
    ∷ codes "бот для магазина"
    ∷ codes "бот для продаж"
    ∷ codes "бот для заявок"
    ∷ codes "бот для поддержки"
    ∷ codes "бот-консультант"
    ∷ codes "бот-ассистент"
    ∷ codes "бот для записи"
    ∷ codes "бот для бронирования"
    ∷ codes "бот для уведомлений"
    ∷ codes "бот для рассылки"
    ∷ codes "бот с оплатой"
    ∷ codes "бот с подпиской"
    ∷ codes "бот с личным кабинетом"
    ∷ codes "бот с админкой"
    ∷ codes "бот с базой данных"
    ∷ codes "бот с реферальной системой"
    ∷ codes "бот с внутренней валютой"
    ∷ codes "бот с балансом"
    ∷ codes "бот с регистрацией"
    ∷ codes "бот с анкетой"
    ∷ codes "бот с меню"
    ∷ codes "бот для канала"
    ∷ codes "бот для группы"
    ∷ codes "бот для чата"
    ∷ codes "модератор чата"
    ∷ codes "автоматические ответы"
    ∷ codes "автоответчик"
    ∷ codes "уведомления в Telegram"
    ∷ codes "Telegram Mini App"
    ∷ codes "Telegram mini app"
    ∷ codes "Telegram Web App"
    ∷ codes "мини-приложение Telegram"
    ∷ codes "мини приложение в телеграм"
    ∷ codes "миниапп"
    ∷ codes "mini app"
    ∷ codes "web app для Telegram"
    ∷ codes "приложение внутри Telegram"
    ∷ codes "магазин в Telegram"
    ∷ codes "личный кабинет в Telegram"
    ∷ []

abbrev pub strong_skills_second : List Text
strong_skills_second =
    codes "AI"
    ∷ codes "ИИ"
    ∷ codes "аи"
    ∷ codes "искусственный интеллект"
    ∷ codes "нейросеть"
    ∷ codes "нейросети"
    ∷ codes "нейронка"
    ∷ codes "AI-интеграция"
    ∷ codes "ИИ-интеграция"
    ∷ codes "интеграция нейросети"
    ∷ codes "подключить нейросеть"
    ∷ codes "внедрить ИИ"
    ∷ codes "добавить ИИ"
    ∷ codes "AI assistant"
    ∷ codes "AI-ассистент"
    ∷ codes "ИИ-ассистент"
    ∷ codes "умный помощник"
    ∷ codes "виртуальный помощник"
    ∷ codes "цифровой помощник"
    ∷ codes "LLM"
    ∷ codes "LLM API"
    ∷ codes "языковая модель"
    ∷ codes "большая языковая модель"
    ∷ codes "ChatGPT"
    ∷ codes "чат GPT"
    ∷ codes "чатгпт"
    ∷ codes "GPT"
    ∷ codes "OpenAI"
    ∷ codes "Claude"
    ∷ codes "Gemini"
    ∷ codes "GigaChat"
    ∷ codes "Qwen"
    ∷ codes "DeepSeek"
    ∷ codes "локальная нейросеть"
    ∷ codes "локальная LLM"
    ∷ codes "AI agent"
    ∷ codes "AI-агент"
    ∷ codes "ИИ-агент"
    ∷ codes "агент на нейросети"
    ∷ codes "мультиагентная система"
    ∷ codes "система агентов"
    ∷ codes "автономный агент"
    ∷ codes "LangChain"
    ∷ codes "LangGraph"
    ∷ codes "RAG"
    ∷ codes "RAG-система"
    ∷ codes "база знаний"
    ∷ codes "чат с базой знаний"
    ∷ codes "чат по документам"
    ∷ codes "ответы по документам"
    ∷ codes "поиск по документам"
    ∷ codes "умный поиск"
    ∷ codes "семантический поиск"
    ∷ codes "векторный поиск"
    ∷ codes "поиск по смыслу"
    ∷ codes "эмбеддинги"
    ∷ codes "векторная база данных"
    ∷ codes "Qdrant"
    ∷ codes "Milvus"
    ∷ codes "Pinecone"
    ∷ codes "ChromaDB"
    ∷ codes "FAISS"
    ∷ codes "корпоративный чат-бот"
    ∷ codes "бот по базе знаний"
    ∷ codes "ассистент для сотрудников"
    ∷ codes "ассистент для клиентов"
    ∷ codes "загрузка документов в нейросеть"
    ∷ codes "обработка базы документов"
    ∷ codes "анализ документов"
    ∷ codes "вопросы и ответы по документам"
    ∷ codes "обработка текста"
    ∷ codes "анализ текста"
    ∷ codes "классификация текста"
    ∷ codes "суммаризация"
    ∷ codes "генерация текста"
    ∷ codes "проверка текста"
    ∷ codes "извлечение данных из текста"
    ∷ codes "извлечение данных из документов"
    ∷ codes "обработка PDF"
    ∷ codes "парсинг PDF"
    ∷ codes "распознавание PDF"
    ∷ codes "OCR"
    ∷ codes "распознавание текста"
    ∷ codes "распознавание сканов"
    ∷ codes "распознавание документов"
    ∷ codes "обработка договоров"
    ∷ codes "обработка счетов"
    ∷ codes "обработка накладных"
    ∷ codes "обработка резюме"
    ∷ codes "анализ заявок"
    ∷ codes "анализ обращений"
    ∷ codes "автоматическая обработка заявок"
    ∷ codes "транскрибация"
    ∷ codes "расшифровка аудио"
    ∷ codes "распознавание речи"
    ∷ codes "преобразование аудио в текст"
    ∷ codes "автоматизация"
    ∷ codes "автоматизация бизнеса"
    ∷ codes "автоматизация бизнес-процессов"
    ∷ codes "автоматизация работы"
    ∷ codes "автоматизация рутины"
    ∷ codes "автоматизация заявок"
    ∷ codes "автоматизация продаж"
    ∷ codes "автоматизация отчетов"
    ∷ codes "автоматизация документооборота"
    ∷ codes "автоматизация обработки данных"
    ∷ codes "автоматизация переписки"
    ∷ codes "автоматическая рассылка"
    ∷ codes "автоматические уведомления"
    ∷ codes "автоматическая генерация отчетов"
    ∷ codes "скрипт автоматизации"
    ∷ codes "написать скрипт"
    ∷ codes "доработать скрипт"
    ∷ codes "программа для автоматизации"
    ∷ codes "сервис автоматизации"
    ∷ codes "интеграционный сервис"
    ∷ codes "перенос данных"
    ∷ codes "импорт данных"
    ∷ codes "экспорт данных"
    ∷ codes "синхронизация CRM"
    ∷ codes "обработка Excel"
    ∷ codes "работа с Excel"
    ∷ codes "обработка CSV"
    ∷ codes "Google Sheets"
    ∷ codes "Google Таблицы"
    ∷ codes "интеграция с Google Таблицами"
    ∷ codes "парсинг"
    ∷ codes "парсер"
    ∷ codes "написать парсер"
    ∷ codes "сделать парсер"
    ∷ codes "сбор данных"
    ∷ codes "сбор информации"
    ∷ []

abbrev pub strong_skills_third : List Text
strong_skills_third =
    codes "выгрузка данных"
    ∷ codes "веб-скрапинг"
    ∷ codes "web scraping"
    ∷ codes "скрапинг"
    ∷ codes "мониторинг сайтов"
    ∷ codes "мониторинг цен"
    ∷ codes "мониторинг товаров"
    ∷ codes "мониторинг объявлений"
    ∷ codes "парсер сайта"
    ∷ codes "парсер маркетплейса"
    ∷ codes "парсер объявлений"
    ∷ codes "парсер вакансий"
    ∷ codes "парсер товаров"
    ∷ codes "парсер цен"
    ∷ codes "парсер Telegram"
    ∷ codes "парсер каналов"
    ∷ codes "парсер чатов"
    ∷ codes "парсер сообщений"
    ∷ codes "агрегатор данных"
    ∷ codes "агрегатор объявлений"
    ∷ codes "Selenium"
    ∷ codes "Playwright"
    ∷ codes "requests"
    ∷ codes "httpx"
    ∷ codes "aiohttp"
    ∷ []
