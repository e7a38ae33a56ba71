-- ===== src/Model/Values.antt =====
-- Go's `any`: the values under `map[string]any`, as package encoding/json fills it, and an `int`,
-- which the program puts there. The number of a `num` is counted like an amount.
use visto_easy.Prelude.{Bool, String}
use visto_easy.Prelude.Int.{ℤ}

mutual
  pub data Json : Type 0 where
    null : Json
    bool : Bool → Json
    num : ℤ → Json
    int : ℤ → Json
    str : String → Json
    arr : Items → Json
    obj : Fields → Json

  pub data Items : Type 0 where
    nil : Items
    cons : Json → Items → Items

  -- `map[string]any`
  pub data Fields : Type 0 where
    end : Fields
    field : String → Json → Fields → Fields
