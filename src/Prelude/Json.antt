-- ===== src/Prelude/Json.antt =====
-- Python's `int`, and the values that a JSON document holds (`dict[str, Any]`).
use profi_notifications.Prelude.Strings.{Text}
use Prim.Native.Nat.{ℕ}
use mathlib.Core.Bool.{Bool}
use mathlib.Core.Option.{Option, none, some}
use mathlib.Core.List.{List, [], ◌∷◌}

-- `negsuc n` is -(n + 1).
pub data ℤ : Type 0 where
  pos : ℕ → ℤ
  negsuc : ℕ → ℤ

-- A float is carried as its 64-bit pattern: no code of the services computes with one.
mutual
  pub data Json : Type 0 where
    null : Json
    bool : Bool → Json
    int : ℤ → Json
    float : ℕ → Json
    str : Text → Json
    arr : Items → Json
    obj : Fields → Json

  pub data Items : Type 0 where
    nil : Items
    item : Json → Items → Items

  pub data Fields : Type 0 where
    end : Fields
    field : Text → Json → Fields → Fields

-- A list of documents as one array.
unfoldable pub items : List Json → Items
items [] = nil
items (j ∷ js) = item j (items js)

-- A Python value that may be `None`.
abbrev pub or_null {ℓ} : {A : Type ℓ} → (A → Json) → Option A → Json
or_null f none = null
or_null f (some a) = f a

-- One entry of an object, left out where the value is `None` (`exclude_none`).
abbrev pub given {ℓ} : {A : Type ℓ} → Text → (A → Json) → Option A → Fields → Fields
given k f none rest = rest
given k f (some a) rest = field k (f a) rest
