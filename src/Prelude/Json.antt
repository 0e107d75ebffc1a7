-- ===== src/Prelude/Json.antt =====
-- JSON values as the source reads them. A number is a natural number; `none` is `undefined`.
use Prim.Native.Nat.{ℕ, zero, suc, ◌/◌, ◌%◌}
use Prim.Native.String.{String, ◌++◌ as append}
use mathlib.Core.Bool.{Bool, true, false, not}
use mathlib.Core.Option.{Option, none, some}
use mathlib.Core.List.{List, [], ◌∷◌}
use specrails_core.Prelude.Tests.{str_eq, ◌==◌, if◌then◌else◌}

mutual
  pub data Json : Type 0 where
    null : Json
    boolean : Bool → Json
    number : ℕ → Json
    text : String → Json
    array : JsonItems → Json
    object : JsonFields → Json

  pub data JsonItems : Type 0 where
    last : JsonItems
    item : Json → JsonItems → JsonItems

  pub data JsonFields : Type 0 where
    done : JsonFields
    field : String → Json → JsonFields → JsonFields

-- `object[key]`
pub at_key : String → JsonFields → Option Json
at_key key done = none
at_key key (field k value rest) = if str_eq k key then some value else at_key key rest

-- `value?.key`: undefined where the value is no object.
pub member : String → Option Json → Option Json
member key (some (object fields)) = at_key key fields
member key _ = none

-- `typeof value === 'string' ? value : undefined`
abbrev pub str : Option Json → Option String
str (some (text s)) = some s
str _ = none

-- `typeof value === 'number' && Number.isFinite(value) ? value : undefined`
abbrev pub num : Option Json → Option ℕ
num (some (number n)) = some n
num _ = none

-- `value === true`
abbrev pub is_true : Option Json → Bool
is_true (some (boolean b)) = b
is_true _ = false

-- `value === literal`
abbrev pub is_text : String → Option Json → Bool
is_text literal (some (text s)) = str_eq s literal
is_text literal _ = false

-- A value that counts as true.
abbrev pub is_truthy : Option Json → Bool
is_truthy none = false
is_truthy (some null) = false
is_truthy (some (boolean b)) = b
is_truthy (some (number n)) = not (n == 0)
is_truthy (some (text s)) = not (str_eq s "")
is_truthy (some _) = true

abbrev items_of : JsonItems → List Json
items_of last = []
items_of (item x xs) = x ∷ items_of xs

-- `Array.isArray(value)`, and its elements.
abbrev pub elements : Option Json → Option (List Json)
elements (some (array xs)) = some (items_of xs)
elements _ = none

-- `Object.keys(value)[0]`
abbrev pub first_key : Json → Option String
first_key (object (field key value rest)) = some key
first_key (array (item x xs)) = some "0"
first_key (text s) = if str_eq s "" then none else some "0"
first_key _ = none

abbrev pub digit : ℕ → String
digit n =
    if n == 0
    then "0"
    else if n == 1
    then "1"
    else if n == 2
    then "2"
    else if n == 3
    then "3"
    else if n == 4
    then "4"
    else if n == 5
    then "5"
    else if n == 6
    then "6"
    else if n == 7
    then "7"
    else if n == 8
    then "8"
    else "9"

-- The decimal digits of a number; the number itself is fuel enough.
pub decimal : ℕ → ℕ → String → String
decimal zero n rest = rest
decimal (suc fuel) n rest =
    let more = decimal fuel (n / 10) (append (digit (n % 10)) rest) in if n == 0 then rest else more

abbrev pub show_number : ℕ → String
show_number n = if n == 0 then "0" else decimal n n ""

-- `String(value)`
mutual
  pub to_text : Json → String
  to_text null = "null"
  to_text (boolean true) = "true"
  to_text (boolean false) = "false"
  to_text (number n) = show_number n
  to_text (text s) = s
  to_text (array xs) = join_items xs
  to_text (object fields) = "[object Object]"

  join_items : JsonItems → String
  join_items last = ""
  join_items (item x last) = item_text x
  join_items (item x xs) = append (item_text x) (append "," (join_items xs))

  item_text : Json → String
  item_text null = ""
  item_text (boolean true) = "true"
  item_text (boolean false) = "false"
  item_text (number n) = show_number n
  item_text (text s) = s
  item_text (array xs) = join_items xs
  item_text (object fields) = "[object Object]"
