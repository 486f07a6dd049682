-- ===== src/Core/Json.antt =====
-- What `orjson.loads` returns, the values of a `dict[str, Any]`: JSON values as Python holds them.
use glacis.Base.{ℕ, Bool, Text}

-- `negsuc n` is -(n + 1)
pub data ℤ : Type 0 where
  pos : ℕ → ℤ
  negsuc : ℕ → ℤ

mutual
  -- a float is the pattern of its 64 bits
  pub data Json : Type 0 where
    null : Json
    boolean : Bool → Json
    integer : ℤ → Json
    float : ℕ → Json
    string : Text → Json
    array : Items → Json
    object : Members → Json

  pub data Items : Type 0 where
    nil : Items
    item : Json → Items → Items

  -- the items of a dict, in insertion order
  pub data Members : Type 0 where
    end : Members
    member : Text → Json → Members → Members
