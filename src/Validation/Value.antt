-- ===== src/Validation/Value.antt =====
-- What is validated: values as JSON and Python have them.
use trust_flow_chain_of_cust.Prelude.Dict.{Dict, IsUnique, contains}
use trust_flow_chain_of_cust.Prelude.{
  ltb, if◌then◌else◌, Text, ℕ, Bool, true, false, List, [], ◌∷◌, arith,
}

-- A number with a fraction counts by whether it is above zero.
mutual
  pub data Value : Type 0 where
    null : Value
    boolean : Bool → Value
    integer : ℕ → Value
    minus : ℕ → Value
    float : Bool → Value
    text : Text → Value
    array : Values → Value
    object : Fields → Value

  pub data Values : Type 0 where
    no_values : Values
    value : Value → Values → Values

  pub data Fields : Type 0 where
    no_fields : Fields
    field : Text → Value → Fields → Fields

unfoldable pub values_of : Values → List Value
values_of no_values = []
values_of (value v vs) = v ∷ values_of vs

-- Of two fields with the same name the last one counts.
unfoldable pub fields_of : Fields → Dict Value
fields_of no_fields = []
fields_of (field k v fs) =
    let rest = fields_of fs in if contains k rest then rest else (k, v) ∷ rest

pub fields_of-IsUnique : (fs : Fields) → IsUnique (fields_of fs)
unfolding fields_of
fields_of-IsUnique no_fields = tt
fields_of-IsUnique (field k v fs) = ground (arith, fields_of-IsUnique fs)

-- The types that a field may be asked to have.
pub data Kind : Type 0 where
  str list int : Kind

-- `isinstance(value, kind)`; a Boolean is an integer
unfoldable pub is_instance : Kind → Value → Bool
is_instance str (text s) = true
is_instance list (array vs) = true
is_instance int (boolean b) = true
is_instance int (integer n) = true
is_instance int (minus n) = true
is_instance _ _ = false

-- `value < n`, for an integer; `minus n` is below zero
unfoldable pub is_int_below : ℕ → Value → Bool
is_int_below n (boolean b) = ltb (if b then 1 else 0) n
is_int_below n (integer m) = ltb m n
is_int_below n (minus m) = true
is_int_below n _ = false
