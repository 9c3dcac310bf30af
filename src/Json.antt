-- ===== src/Json.antt =====
-- The values that `json.loads` yields, as stream_journal.py reads them. A JSON object is a Python
-- dictionary: its keys differ, and the first entry of a key is its entry.
use agent_app_server.Base.{
  zero, Bool, true, false, Option, none, some, String, String-discrete, ℤ, pos, ite, holds,
  if◌then◌else◌, ◌==◌,
}

-- A number with a fraction or an exponent is known by its whole value, if it has one.
mutual
  pub data Json : Type 0 where
    null : Json
    boolean : Bool → Json
    number : ℤ → Json
    float : Option ℤ → Json
    text : String → Json
    array : Items → Json
    object : Fields → Json

  pub data Items : Type 0 where
    nil : Items
    cons : Json → Items → Items

  pub data Fields : Type 0 where
    end : Fields
    field : String → Json → Fields → Fields

-- `d.get(key)`: a missing key reads as None.
unfoldable pub get : Fields → String → Json
unfolding String-discrete
get end key = null
get (field k v rest) key = ite (String-discrete k key) v (get rest key)

-- `isinstance(v, int)` with its value; Python's booleans are integers.
abbrev pub as_int : Json → Option ℤ
as_int (number n) = some n
as_int (boolean true) = some (pos 1)
as_int (boolean false) = some (pos 0)
as_int _ = none

-- `v == 1`
abbrev pub equals_one : Json → Bool
equals_one (number (pos n)) = n == 1
equals_one (float (some (pos n))) = n == 1
equals_one (boolean b) = b
equals_one _ = false

-- `isinstance(v, str)` with its value.
abbrev pub as_text : Json → Option String
as_text (text s) = some s
as_text _ = none

-- Whether a text is empty.
abbrev pub is_empty : String → Bool
is_empty s = holds (String-discrete s "")

-- `isinstance(v, str) and v`
abbrev pub is_nonempty_text : Json → Bool
is_nonempty_text (text s) = if is_empty s then false else true
is_nonempty_text _ = false

-- `v is None or isinstance(v, str)`
abbrev pub is_text_or_none : Json → Bool
is_text_or_none null = true
is_text_or_none (text s) = true
is_text_or_none _ = false

abbrev pub is_object : Json → Bool
is_object (object fields) = true
is_object _ = false

-- `v or default`: None, False, 0, "", [] and {} give way.
unfoldable pub or_else : Json → Json → Json
unfolding String-discrete
or_else null d = d
or_else (boolean b) d = if b then boolean b else d
or_else (number (pos zero)) d = d
or_else (float (some (pos zero))) d = d
or_else (text s) d = if is_empty s then d else text s
or_else (array nil) d = d
or_else (object end) d = d
or_else v d = v

-- `d.get(key, default)`: the default stands in for a missing key only.
unfoldable pub get_or : Fields → String → Json → Json
unfolding String-discrete
get_or end key d = d
get_or (field k v rest) key d = ite (String-discrete k key) v (get_or rest key d)

-- Whether a value counts as true.
unfoldable pub is_truthy : Json → Bool
unfolding or_else
is_truthy v = elim (or_else v null) [ null ↦ false | _ ↦ true ]

-- `d[key]` where the key is there.
unfoldable pub find_field : Fields → String → Option Json
unfolding String-discrete
find_field end key = none
find_field (field k v rest) key = ite (String-discrete k key) (some v) (find_field rest key)

-- `d[key] = v`
unfoldable pub put : Fields → String → Json → Fields
unfolding String-discrete
put end key v = field key v end
put (field k w rest) key v =
    ite (String-discrete k key) (field k v rest) (field k w (put rest key v))

-- `{**d, **e}` of dictionaries without a common key.
unfoldable pub merge : Fields → Fields → Fields
merge end e = e
merge (field k v rest) e = field k v (merge rest e)

-- `isinstance(v, dict)` with its entries, or none of them.
abbrev pub dict_of : Json → Fields
dict_of (object fields) = fields
dict_of _ = end

-- `str(v)`; `show` is its part on values that are no texts.
abbrev pub str_of : (Json → String) → Json → String
str_of show (text s) = s
str_of show v = show v
