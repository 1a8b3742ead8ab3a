-- ===== src/Value.antt =====
-- Python values as they come from JSON or YAML. Floats and sets are not modelled; an object of any
-- other type stands by its text, `str(value)`. The keys of a dict are texts.
pub mod Equality
use agdd.Prelude.{ℕ, String, Bool}

-- `negsuc n` is -(n + 1).
pub data ℤ : Type 0 where
  pos : ℕ → ℤ
  negsuc : ℕ → ℤ

mutual
  pub data Value : Type 0 where
    null : Value
    bool : Bool → Value
    int : ℤ → Value
    str : String → Value
    other : String → Value
    list : Items → Value
    tuple : Items → Value
    dict : Fields → Value

  pub data Fields : Type 0 where
    end : Fields
    field : String → Value → Fields → Fields

  pub data Items : Type 0 where
    nil : Items
    cons : Value → Items → Items
