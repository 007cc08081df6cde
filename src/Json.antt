-- ===== src/Json.antt =====
-- JSON values, as the sources take them apart after `JSON.parse`. A number is a natural number, or
-- another number of which only the text is kept.
use personal_password_manage.Prelude.{
  ℕ, Bool, true, false, Option, none, some, List, [], ◌∷◌, ◌≡◌, refl, Text, text_eq, if◌then◌else◌,
  ◌==◌,
}

mutual
  pub data Value : Type 0 where
    null : Value
    boolean : Bool → Value
    number : ℕ → Value
    other_number : Text → Value
    string : Text → Value
    array : Elements → Value
    object : Fields → Value

  pub data Elements : Type 0 where
    nil : Elements
    cons : Value → Elements → Elements

  pub data Fields : Type 0 where
    end : Fields
    field : Text → Value → Fields → Fields

abbrev pub elements : Elements → List Value
elements nil = []
elements (cons v vs) = v ∷ elements vs

abbrev pub from_list : List Value → Elements
from_list [] = nil
from_list (v ∷ vs) = cons v (from_list vs)

pub elements-from_list : (vs : List Value) → elements (from_list vs) ≡ vs
elements-from_list [] = refl
elements-from_list (v ∷ vs) = rw (elements-from_list vs)

-- `v.key`, `none` being undefined. (A repeated key does not occur in what is read here; the first
-- field counts.)
abbrev pub get_field : Text → Fields → Option Value
get_field key end = none
get_field key (field k v fs) = if text_eq k key then some v else get_field key fs

-- `v?.key` on any value; only objects have properties of these names.
abbrev pub property : Text → Value → Option Value
property key (object fs) = get_field key fs
property key _ = none

-- `typeof v === 'object' && v !== null`; an array passes too.
abbrev pub is_object : Value → Bool
is_object (object _) = true
is_object (array _) = true
is_object _ = false

abbrev pub is_string : Option Value → Bool
is_string (some (string _)) = true
is_string _ = false

abbrev pub is_array : Option Value → Bool
is_array (some (array _)) = true
is_array _ = false

-- `v === 'text'`, `v === n`
abbrev pub is_text : Text → Option Value → Bool
is_text t (some (string s)) = text_eq s t
is_text t _ = false

abbrev pub is_number : ℕ → Option Value → Bool
is_number n (some (number m)) = m == n
is_number n _ = false

-- The uses that follow a check or a cast: a text, a number, the elements of an array.
abbrev pub as_text : Option Value → Text
as_text (some (string s)) = s
as_text _ = []

abbrev pub as_number : Option Value → ℕ
as_number (some (number n)) = n
as_number _ = 0

abbrev pub as_list : Option Value → List Value
as_list (some (array vs)) = elements vs
as_list _ = []
