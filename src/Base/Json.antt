-- ===== src/Base/Json.antt =====
-- JSON values, and their text. Only `loads (dumps x)` is ever used of a text, so a text is the
-- value that it spells.
use Prim.Native.String.{String}
use mathlib.Core.Bool.{Bool}
use horstmann_dnp3_gateway.Base.Number.{ℤ, Float}

mutual
  pub data Json : Type 0 where
    null : Json
    bool : Bool → Json
    int : ℤ → Json
    float : Float → Json
    text : String → Json
    list : Items → Json
    object : Fields → Json

  pub data Items : Type 0 where
    nil : Items
    cons : Json → Items → Items

  pub data Fields : Type 0 where
    end : Fields
    field : String → Json → Fields → Fields

-- json.dumps
pub data JsonText {ℓ} (A : Type ℓ) : Type ℓ where
  dumps : A → JsonText A

-- json.loads
abbrev pub loads {ℓ} : {A : Type ℓ} → JsonText A → A
loads (dumps a) = a
