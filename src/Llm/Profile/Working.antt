-- ===== src/Llm/Profile/Working.antt =====
-- DEFAULT_PROFILE of llm/app/infrastructure/config/profile.py: working_skills.
use profi_notifications.Prelude.{List, [], ◌∷◌, Text, codes}

abbrev pub working_skills_first : List Text
working_skills_first =
    codes "frontend"
    ∷ codes "фронтенд"
    ∷ codes "фронт"
    ∷ codes "верстка"
    ∷ codes "веб-интерфейс"
    ∷ codes "интерфейс сайта"
    ∷ codes "клиентская часть"
    ∷ codes "fullstack"
    ∷ codes "фулстек"
    ∷ codes "full-stack"
    ∷ codes "React"
    ∷ codes "React.js"
    ∷ codes "Next.js"
    ∷ codes "NextJS"
    ∷ codes "TypeScript"
    ∷ codes "JavaScript"
    ∷ codes "Node.js"
    ∷ codes "NodeJS"
    ∷ codes "Bun"
    ∷ codes "HTML"
    ∷ codes "CSS"
    ∷ codes "Tailwind CSS"
    ∷ codes "адаптивная верстка"
    ∷ codes "мобильная версия"
    ∷ codes "адаптивный сайт"
    ∷ codes "личный кабинет"
    ∷ codes "панель администратора"
    ∷ codes "dashboard"
    ∷ codes "дашборд"
    ∷ codes "сайт"
    ∷ codes "разработка сайта"
    ∷ codes "создание сайта"
    ∷ codes "сайт под ключ"
    ∷ codes "сделать сайт"
    ∷ codes "написать сайт"
    ∷ codes "доработать сайт"
    ∷ codes "переделать сайт"
    ∷ codes "обновить сайт"
    ∷ codes "веб-приложение"
    ∷ codes "web application"
    ∷ codes "корпоративный сайт"
    ∷ codes "сайт компании"
    ∷ codes "сайт услуг"
    ∷ codes "сайт-визитка"
    ∷ codes "сайт визитка"
    ∷ codes "одностраничный сайт"
    ∷ codes "одностраничник"
    ∷ codes "лендинг"
    ∷ codes "лэндинг"
    ∷ codes "лендос"
    ∷ codes "landing page"
    ∷ codes "продающая страница"
    ∷ codes "посадочная страница"
    ∷ codes "MVP"
    ∷ codes "прототип сайта"
    ∷ codes "интернет-магазин"
    ∷ codes "онлайн-магазин"
    ∷ codes "магазин под ключ"
    ∷ codes "каталог товаров"
    ∷ codes "сайт-каталог"
    ∷ codes "маркетплейс"
    ∷ codes "доска объявлений"
    ∷ codes "сервис бронирования"
    ∷ codes "сервис записи"
    ∷ codes "онлайн-платформа"
    ∷ codes "SaaS"
    ∷ codes "CRM-система"
    ∷ codes "ERP-система"
    ∷ codes "внутренний портал"
    ∷ codes "корпоративный портал"
    ∷ codes "SEO"
    ∷ codes "сео"
    ∷ codes "SEO-оптимизация"
    ∷ codes "сео оптимизация"
    ∷ codes "продвижение сайта"
    ∷ codes "оптимизация сайта"
    ∷ codes "техническое SEO"
    ∷ codes "SEO для сайта"
    ∷ codes "настроить SEO"
    ∷ codes "подготовить сайт к SEO"
    ∷ codes "метатеги"
    ∷ codes "title и description"
    ∷ codes "sitemap"
    ∷ codes "sitemap.xml"
    ∷ codes "robots.txt"
    ∷ codes "микроразметка"
    ∷ codes "Schema.org"
    ∷ codes "Open Graph"
    ∷ codes "скорость загрузки сайта"
    ∷ codes "оптимизация производительности"
    ∷ codes "Core Web Vitals"
    ∷ codes "индексация сайта"
    ∷ codes "VK"
    ∷ codes "ВКонтакте"
    ∷ codes "ВК бот"
    ∷ codes "VK бот"
    ∷ codes "бот ВКонтакте"
    ∷ codes "бот для ВК"
    ∷ codes "сообщество ВКонтакте"
    ∷ codes "VK API"
    ∷ codes "WhatsApp"
    ∷ codes "ватсап"
    ∷ codes "WhatsApp бот"
    ∷ codes "бот для WhatsApp"
    ∷ codes "WhatsApp Business API"
    ∷ codes "WABA"
    ∷ codes "Discord"
    ∷ codes "Discord бот"
    ∷ codes "бот для Discord"
    ∷ codes "Instagram"
    ∷ codes "Instagram API"
    ∷ codes "бот для Instagram"
    ∷ codes "автоответчик Instagram"
    ∷ codes "Direct Instagram"
    ∷ codes "чат-бот для сайта"
    ∷ codes "онлайн-консультант"
    ∷ codes "виджет чата"
    ∷ codes "омниканальный чат"
    ∷ codes "единое окно сообщений"
    ∷ codes "Data Science"
    ∷ codes "дата сайнс"
    ∷ codes "анализ данных"
    ∷ codes "аналитика данных"
    ∷ codes "обработка данных"
    ∷ codes "исследование данных"
    ∷ codes "визуализация данных"
    ∷ codes "дашборд с аналитикой"
    ∷ codes "Power BI"
    ∷ codes "PowerBI"
    ∷ codes "бизнес-аналитика"
    ∷ []

abbrev pub working_skills_second : List Text
working_skills_second =
    codes "отчет в Power BI"
    ∷ codes "интерактивный отчет"
    ∷ codes "интерактивный дашборд"
    ∷ codes "машинное обучение"
    ∷ codes "machine learning"
    ∷ codes "ML"
    ∷ codes "обучение модели"
    ∷ codes "модель машинного обучения"
    ∷ codes "предсказательная модель"
    ∷ codes "прогнозирование"
    ∷ codes "классификация"
    ∷ codes "регрессия"
    ∷ codes "кластеризация"
    ∷ codes "рекомендательная система"
    ∷ codes "система рекомендаций"
    ∷ codes "подбор товаров"
    ∷ codes "персональные рекомендации"
    ∷ codes "скоринг"
    ∷ codes "антифрод"
    ∷ codes "поиск аномалий"
    ∷ codes "NumPy"
    ∷ codes "Pandas"
    ∷ codes "Scikit-learn"
    ∷ codes "PyTorch"
    ∷ codes "TensorFlow"
    ∷ codes "XGBoost"
    ∷ codes "CatBoost"
    ∷ codes "LightGBM"
    ∷ codes "компьютерное зрение"
    ∷ codes "computer vision"
    ∷ codes "анализ изображений"
    ∷ codes "обработка изображений"
    ∷ codes "распознавание изображений"
    ∷ codes "распознавание лиц"
    ∷ codes "детекция объектов"
    ∷ codes "поиск объектов на фото"
    ∷ codes "подсчет объектов"
    ∷ codes "сегментация изображений"
    ∷ codes "классификация изображений"
    ∷ codes "анализ видео"
    ∷ codes "обработка видео"
    ∷ codes "нейросеть для камеры"
    ∷ codes "YOLO"
    ∷ codes "OpenCV"
    ∷ codes "ClickHouse"
    ∷ codes "Kafka"
    ∷ codes "Redpanda"
    ∷ codes "ETL"
    ∷ codes "ETL-процесс"
    ∷ codes "пайплайн данных"
    ∷ codes "data pipeline"
    ∷ codes "обработка больших данных"
    ∷ codes "хранилище данных"
    ∷ codes "аналитическая база данных"
    ∷ codes "Milvus"
    ∷ codes "SBERT"
    ∷ codes "Sentence Transformers"
    ∷ codes "DevOps"
    ∷ codes "девопс"
    ∷ codes "настройка сервера"
    ∷ codes "развернуть проект"
    ∷ codes "развертывание проекта"
    ∷ codes "деплой"
    ∷ codes "настроить деплой"
    ∷ codes "выложить сайт на сервер"
    ∷ codes "перенести сайт на сервер"
    ∷ codes "настроить VPS"
    ∷ codes "настроить Linux-сервер"
    ∷ codes "настроить Docker"
    ∷ codes "контейнеризация"
    ∷ codes "Docker Swarm"
    ∷ codes "Nginx"
    ∷ codes "Traefik"
    ∷ codes "reverse proxy"
    ∷ codes "SSL"
    ∷ codes "HTTPS"
    ∷ codes "настроить домен"
    ∷ codes "подключить домен"
    ∷ codes "настроить сертификат"
    ∷ codes "CI/CD"
    ∷ codes "автоматический деплой"
    ∷ codes "GitHub Actions"
    ∷ codes "Jenkins"
    ∷ codes "Ansible"
    ∷ codes "мониторинг серверов"
    ∷ codes "мониторинг приложения"
    ∷ codes "Prometheus"
    ∷ codes "Grafana"
    ∷ codes "Loki"
    ∷ codes "сбор логов"
    ∷ codes "централизованные логи"
    ∷ codes "алерты"
    ∷ codes "резервное копирование"
    ∷ codes "бэкапы"
    ∷ codes "S3"
    ∷ codes "объектное хранилище"
    ∷ []
