-- ===== src/Json.antt =====
-- JSON values, as the `Json` columns of the schema and the webhook bodies hold them. A number is
-- an integer: the program copies numbers and never computes with them. A function, which a template
-- may pick up by mistake, has no JSON text.
pub mod Print
use adms.Prelude.{Bool, ℤ, Text}

mutual
  pub data Json : Type 0 where
    null : Json
    bool : Bool → Json
    num : ℤ → Json
    str : Text → Json
    arr : Items → Json
    obj : Fields → Json
    function : Text → Json

  pub data Items : Type 0 where
    nil : Items
    cons : Json → Items → Items

  pub data Fields : Type 0 where
    end : Fields
    field : Text → Json → Fields → Fields
