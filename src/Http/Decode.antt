-- ===== src/Http/Decode.antt =====
-- Reading a request's body: internal/httpapi/compat_json.go, and encoding/json on the types of the
-- program's fields. `none` is the decoder's error. A name that stands twice in an object sets its field
-- twice.
pub mod Integers
use ocpphal_go.Prelude.{
  ℕ, String, Bool, true, false, ◌||◌, Option, none, some, List, [], ◌∷◌, ℤ, pos, atoi, ◌==◌,
  String_key, trim_space, equal_fold, if◌then◌else◌, Json, Items, Members, null, boolean, number,
  str, array, object, no_items, item, no_members, member, is_positive,
}

infixl 5 ◌>>=◌
abbrev pub ◌>>=◌ {ℓ κ} : {A : Type ℓ} {B : Type κ} → Option A → (A → Option B) → Option B
none >>= f = none
some a >>= f = f a

-- flexibleInt.UnmarshalJSON. Atoi refuses the text of a Boolean, an array or an object.
unfoldable pub flexible_int : Json → Option ℤ
flexible_int null = some (pos 0)
flexible_int (boolean b) = none
flexible_int (number n) = atoi n
flexible_int (str s) = atoi (trim_space s)
flexible_int (array vs) = none
flexible_int (object ms) = none

-- strconv.ParseBool
unfoldable pub parse_bool : String → Option Bool
parse_bool s =
    if s == "1" || s == "t" || s == "T" || s == "TRUE" || s == "true" || s == "True"
    then some true
    else if s == "0" || s == "f" || s == "F" || s == "FALSE" || s == "false" || s == "False"
    then some false
    else none

-- flexibleBool.UnmarshalJSON.
unfoldable pub flexible_bool : Json → Option Bool
unfolding parse_bool
flexible_bool null = some false
flexible_bool (boolean b) = some b
flexible_bool (number n) = parse_bool n
flexible_bool (str s) = parse_bool (trim_space s)
flexible_bool (array vs) = none
flexible_bool (object ms) = none

-- What a member makes of a field: `null` leaves a string as it is, and clears a pointer or a slice.
abbrev pub set_text : String → Json → Option String
set_text old null = some old
set_text old (boolean b) = none
set_text old (number n) = none
set_text old (str s) = some s
set_text old (array vs) = none
set_text old (object ms) = none

abbrev pub set_int : ℤ → Json → Option ℤ
set_int old v = flexible_int v

abbrev pub set_bool : Bool → Json → Option Bool
set_bool old v = flexible_bool v

abbrev pub some_int : Option ℤ → Option (Option ℤ)
some_int none = none
some_int (some n) = some (some n)

-- A `*flexibleInt`, and flexibleIntPtr of it.
abbrev pub set_int_pointer : Option ℤ → Json → Option (Option ℤ)
set_int_pointer old null = some none
set_int_pointer old (boolean b) = none
set_int_pointer old (number n) = some_int (flexible_int (number n))
set_int_pointer old (str s) = some_int (flexible_int (str s))
set_int_pointer old (array vs) = none
set_int_pointer old (object ms) = none

unfoldable pub texts : Items → Option (List String)
texts no_items = some []
texts (item v vs) = let rest = texts vs in set_text "" v >>= λ s. rest >>= λ ss. some (s ∷ ss)

abbrev pub set_texts : List String → Json → Option (List String)
set_texts old null = some []
set_texts old (boolean b) = none
set_texts old (number n) = none
set_texts old (str s) = none
set_texts old (array vs) = texts vs
set_texts old (object ms) = none

-- A field by its name, from the value it has. Names are compared without regard to case.
unfoldable pub field : {A : Type 0} → (A → Json → Option A) → String → A → Members → Option A
field set name old no_members = some old
field set name old (member key v ms) =
    if equal_fold key name
    then (set old v >>= λ new. field set name new ms)
    else field set name old ms

-- The members of a body: `null` sets nothing, and a value that is no object is an error.
abbrev pub body_members : Option Json → Option Members
body_members none = none
body_members (some null) = some no_members
body_members (some (boolean b)) = none
body_members (some (number n)) = none
body_members (some (str s)) = none
body_members (some (array vs)) = none
body_members (some (object ms)) = some ms

abbrev pub text_field : String → Members → Option String
text_field name ms = field set_text name "" ms

abbrev pub int_field : String → Members → Option ℤ
int_field name ms = field set_int name (pos 0) ms

abbrev pub bool_field : String → Members → Option Bool
bool_field name ms = field set_bool name false ms

abbrev pub pointer_field : String → Members → Option (Option ℤ)
pointer_field name ms = field set_int_pointer name none ms

abbrev pub texts_field : String → Members → Option (List String)
texts_field name ms = field set_texts name [] ms

-- The first of two fields if it is positive, and else the second.
abbrev pub positive_or : ℤ → ℤ → ℤ
positive_or a b = if is_positive a then a else b

abbrev pub text_or : String → String → String
text_or a b = if a == "" then b else a
