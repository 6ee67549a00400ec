-- ===== src/Json.antt =====
-- The JSON values of ssat/core/types.py. A float is kept as the text of its `repr`, which names it
-- exactly. The frozen form (tuples and mapping proxies) has the same values.
use region_sensitivity.Prelude.{ℕ, Bool, String}

mutual
  pub data Json : Type 0 where
    null : Json
    boolean : Bool → Json
    -- a non-negative and a negative integer; `negative n` is -(n + 1)
    natural negative : ℕ → Json
    float text : String → Json
    array : Items → Json
    object : Fields → Json

  pub data Items : Type 0 where
    end : Items
    item : Json → Items → Items

  pub data Fields : Type 0 where
    nothing : Fields
    field : String → Json → Fields → Fields
