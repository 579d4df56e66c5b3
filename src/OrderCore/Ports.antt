-- ===== src/OrderCore/Ports.antt =====
-- order-core-service/app/application/ports.py: the operations that the use cases call in a
-- transaction, over tables of any type, and what an implementation of them promises.
pub mod Sql
pub mod Runs
pub mod UseCases
use profi_notifications.Prelude.{ℕ, Bool, Option, Text, ◌≡◌}
use profi_notifications.OrderCore.Domain.{Source, OrderStatus, NotificationCommand, Order}
use profi_notifications.OrderCore.Dto.{IncomingOrder, Result, ok}
use profi_notifications.OrderCore.Effects.{Tx, Session}

-- OrderRepository and OutboxRepository
pub record Ports (D : Type 0) : Type 0 where
  pub insert_new : IncomingOrder → Tx D Bool
  pub get : Source → Text → Tx D (Option Order)
  pub set_status : Source → Text → OrderStatus → Option ℕ → Tx D Bool
  pub add_assessment_request : IncomingOrder → Tx D Unit
  pub add_notification : Source → Text → NotificationCommand → Tx D Unit

module _ {D A : Type 0} where
  -- An operation that commits and sends nothing, and that has done `f` to the tables if it returns.
  pub record Does (f : D → Result A × D) (operation : Tx D A) : Type 0 where
    pub uncommitted : (s : Session D) → (operation s).1.world.committed ≡ s.world.committed
    pub unsent : (s : Session D) → (operation s).1.world.sent ≡ s.world.sent
    pub done :
        (s : Session D) (a : A) → (operation s).0 ≡ ok a → f s.db ≡ (ok a, (operation s).1.db)

-- What the operations do to the tables alone.
pub record Meaning (D : Type 0) : Type 0 where
  pub inserted : IncomingOrder → D → Result Bool × D
  pub found : Source → Text → D → Result (Option Order)
  pub updated : Source → Text → OrderStatus → Option ℕ → D → Result Bool × D
  pub asked : IncomingOrder → D → Result Unit × D
  pub notified : Source → Text → NotificationCommand → D → Result Unit × D

pub record Implements {D : Type 0} (ports : Ports D) (meaning : Meaning D) : Type 0 where
  pub insert_new : (o : IncomingOrder) → Does (meaning.inserted o) (ports.insert_new o)
  pub get :
      (source : Source) (id : Text)
      → Does (λ d. (meaning.found source id d, d)) (ports.get source id)
  pub set_status :
      (source : Source) (id : Text) (status : OrderStatus) (score : Option ℕ)
      → Does (meaning.updated source id status score) (ports.set_status source id status score)
  pub add_assessment_request :
      (o : IncomingOrder) → Does (meaning.asked o) (ports.add_assessment_request o)
  pub add_notification :
      (source : Source) (id : Text) (n : NotificationCommand)
      → Does (meaning.notified source id n) (ports.add_notification source id n)
