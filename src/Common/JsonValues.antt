-- ===== src/Common/JsonValues.antt =====
-- The values that a JSON document becomes in Python. A tuple or a set is an array.
use mathlib.Core.Bool.{Bool}
use superoffice_ai_support_m.Common.Ints.{ℤ}
use superoffice_ai_support_m.Common.Texts.{Text}

mutual
  pub data Json : Type 0 where
    null : Json
    boolean : Bool → Json
    number : ℤ → Json
    text : Text → Json
    array : JsonItems → Json
    object : JsonFields → Json

  pub data JsonItems : Type 0 where
    end_items : JsonItems
    item : Json → JsonItems → JsonItems

  pub data JsonFields : Type 0 where
    end_fields : JsonFields
    field : Text → Json → JsonFields → JsonFields
