-- ===== src/OrderCore/Ports/Runs.antt =====
-- How the effects of the operations on the tables add up along the body of a use case.
use profi_notifications.Prelude.{◌≡◌, refl, arith, ap, ◌∙◌}
use profi_notifications.OrderCore.Dto.{Result, ok, err}
use profi_notifications.OrderCore.Effects.{Tx, Session, LogEntry, continue, ◌>>=◌, write_log}
use profi_notifications.OrderCore.Effects.Atomic.{Ran}
use profi_notifications.OrderCore.Ports.{Does}

-- What follows an effect on the tables, if this does not raise.
abbrev pub after : {A D : Type 0} → (A → D → D) → Result A × D → D
after h (ok a, d) = h a d
after h (err e, d) = d

module _ {D : Type 0} where
  -- A part of a body that does `f` to the tables if it does not raise.
  abbrev pub RunsAs : (D → D) → Tx D Unit → Type 0
  RunsAs f m = (s : Session D) → Ran (f s.db) s (m s)

  module _ {A : Type 0} (f : D → Result A × D) (m : Tx D A) (does : Does f m) (h : A → D → D)
      (k : A → Tx D Unit) (runs : (a : A) → RunsAs (h a) (k a)) where
    followed :
        (s : Session D) (out : Result A × Session D)
        → m s ≡ out
        → Ran (after h (f s.db)) s (continue out.0 k out.1)
    followed s (ok a, t) e =
        let c = does.uncommitted s in
        let n = does.unsent s in
        let d = does.done s a (ap (λ (o : Result A × Session D). o.0) e) in
        let r = runs a t in
        record {
          uncommitted = r.uncommitted ∙ ground (arith, c, e);
          unsent = r.unsent ∙ ground (arith, n, e);
          wrote = λ q. r.wrote q ∙ ground (arith, d, e);
        }
    followed s (err x, t) e = record {
      uncommitted = ground (arith, does.uncommitted s, e);
      unsent = ground (arith, does.unsent s, e);
      wrote = λ q. absurd (cc);
    }

    pub Does-then : RunsAs (λ d. after h (f d)) (m >>= k)
    unfolding ◌>>=◌
    Does-then s = followed s (m s) refl

  pub logged : (entry : LogEntry) → RunsAs (λ d. d) (write_log entry)
  unfolding write_log
  logged entry s = record { uncommitted = refl; unsent = refl; wrote = λ q. refl }

  pub in_turn :
      (g : D → D) (n : Tx D Unit) (d : D) (s : Session D) (out : Result Unit × Session D)
      → Ran d s out
      → RunsAs g n
      → Ran (g d) s (continue out.0 (λ _. n) out.1)
  in_turn g n d s (ok u, t) p q =
      let r = q t in
      record {
        uncommitted = r.uncommitted ∙ p.uncommitted;
        unsent = r.unsent ∙ p.unsent;
        wrote = λ e. r.wrote e ∙ ap g (p.wrote refl);
      }
  in_turn g n d s (err x, t) p q = record {
    uncommitted = p.uncommitted;
    unsent = p.unsent;
    wrote = λ e. absurd (cc);
  }
