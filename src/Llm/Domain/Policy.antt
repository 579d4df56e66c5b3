-- ===== src/Llm/Domain/Policy.antt =====
-- When the policy of llm asks for a notification.
use profi_notifications.Prelude.{arith, ◌≤◌, false, [], ◌↔◌, true, ◌≡◌, ℕ}
use profi_notifications.Llm.Domain.{false, true, ℕ, decide, Assessment}

-- The policy asks for a notification exactly if the model found no unsupported skill, the order is of
-- no rejected type and the score reaches the threshold.
pub notify-decide :
    (a : Assessment) (threshold : ℕ)
    → ((decide a threshold).notify ≡ true) ↔ (
        (a.unsupported_hits ≡ [])
        × (a.is_rejected_type ≡ false)
        × (threshold ≤ a.suitability_score))
unfolding decide
notify-decide a threshold = ground arith
