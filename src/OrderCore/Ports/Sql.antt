-- ===== src/OrderCore/Ports/Sql.antt =====
-- The ports as SQLAlchemy and PostgreSQL implement them.
use profi_notifications.Prelude.{ℕ, arith}
use profi_notifications.OrderCore.Dto.{Result}
use profi_notifications.OrderCore.Domain.{source_value}
use profi_notifications.OrderCore.Effects.{answered, statement}
use profi_notifications.OrderCore.Wire.{assess_request_payload, notification_payload}
use profi_notifications.OrderCore.Db.{
  Db, insert_order, find_order, read_order, update_status, insert_event, assess_request, notify,
  event_key, assess_kind, notify_kind,
}
use profi_notifications.OrderCore.Db.Repositories
use profi_notifications.OrderCore.Ports.{Ports, Does, Meaning, Implements}

-- In a transaction that began at the time `now`.
abbrev pub sql_ports : ℕ → Ports Db
sql_ports now = record {
  insert_new = Repositories.insert_new now;
  get = Repositories.get now;
  set_status = Repositories.set_status now;
  add_assessment_request = Repositories.add_assessment_request now;
  add_notification = Repositories.add_notification now;
}

abbrev pub sql_meaning : ℕ → Meaning Db
sql_meaning now = record {
  inserted = insert_order now;
  found = λ source id db. read_order (find_order (source_value source) id db.orders);
  updated = λ source. update_status now (source_value source);
  asked = λ o.
      insert_event now assess_request (event_key assess_kind o.source o.external_id)
        (assess_request_payload o);
  notified = λ source id n.
      insert_event now notify (event_key notify_kind source id) (notification_payload n);
}

-- one statement does what it says
statement-Does : {A : Type 0} (f : Db → Result A × Db) → Does f (statement f)
unfolding statement answered
statement-Does f = record {
  uncommitted = λ s. ground arith;
  unsent = λ s. ground arith;
  done = λ s a h. ground (arith, h);
}

pub sql_ports-Implements : (now : ℕ) → Implements (sql_ports now) (sql_meaning now)
unfolding Repositories.insert_new Repositories.get Repositories.set_status
    Repositories.add_assessment_request Repositories.add_notification
sql_ports-Implements now = record {
  insert_new = λ o. statement-Does (insert_order now o);
  get = λ source id. statement-Does _;
  set_status = λ source id status score.
      statement-Does (update_status now (source_value source) id status score);
  add_assessment_request = λ o. statement-Does _;
  add_notification = λ source id n. statement-Does _;
}
