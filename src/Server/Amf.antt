-- ===== src/Server/Amf.antt =====
-- The values of github.com/gwuhaolin/livego/protocol/amf, as far as the server looks at them, and
-- what it uses of that library. A float64 is its 64 bits, an int its 64 bits too.
use fastlive.Base.{ℕ, Bool, List, Option, none, some, Outcome, Key, same_key, if◌then◌else◌}

-- amf.Object is a map: of fields with one name the first counts.
mutual
  pub data Value : Type 0 where
    null : Value
    boolean : Bool → Value
    number : ℕ → Value
    int : ℕ → Value
    text : Key → Value
    object : Fields → Value
    other : Value

  pub data Fields : Type 0 where
    end : Fields
    field : Key → Value → Fields → Fields

-- The library: what DecodeBatch makes of bytes (the end of the bytes is no error), what Encode
-- writes for values one after the other, and Go's conversion of a float64 to an int.
pub record Amf : Type 0 where
  pub decode : List ℕ → Outcome (List Value)
  pub encode : List Value → Outcome (List ℕ)
  pub int_of : ℕ → ℕ

-- `v[name]`
abbrev pub value_at : Key → Fields → Option Value
value_at name end = none
value_at name (field k v fs) = if same_key k name then some v else value_at name fs

-- The type assertions.
abbrev pub as_text : Option Value → Option Key
as_text (some (text k)) = some k
as_text _ = none

abbrev pub as_boolean : Option Value → Option Bool
as_boolean (some (boolean b)) = some b
as_boolean _ = none

abbrev pub as_number : Option Value → Option ℕ
as_number (some (number x)) = some x
as_number _ = none

abbrev pub as_int : Option Value → Option ℕ
as_int (some (int n)) = some n
as_int _ = none

-- An assertion to float64 with a conversion to int.
abbrev pub as_converted : (ℕ → ℕ) → Option Value → Option ℕ
as_converted int_of (some (number x)) = some (int_of x)
as_converted int_of _ = none

-- A field is set if the assertion holds.
abbrev pub or_keep {ℓ} : {A : Type ℓ} → Option A → A → A
or_keep (some x) old = x
or_keep none old = old
