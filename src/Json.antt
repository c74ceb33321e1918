-- ===== src/Json.antt =====
-- Values that `json.loads` returns, and what the code does with one it expects to be a list or an
-- object. The parser of the standard library is a parameter of the code that calls it.
use coding_agent_support.Base.{
  ℕ, suc, Bool, true, false, not, ◌||◌, has_text, is_empty, Option, none, some, Text, length,
  if◌then◌else◌, ◌==◌, list_eq, nat_eq,
}
use coding_agent_support.Base.Integers.{ℤ, is_zero}
use coding_agent_support.Effects.{Result, ok, err, type_error, attribute_error}

mutual
  pub data Json : Type 0 where
    null : Json
    bool : Bool → Json
    num : ℤ → Json
    str : Text → Json
    arr : Items → Json
    obj : Fields → Json

  pub data Items : Type 0 where
    nil : Items
    cons : Json → Items → Items

  pub data Fields : Type 0 where
    end : Fields
    field : Text → Json → Fields → Fields

abbrev pub count_items : Items → ℕ
count_items nil = 0
count_items (cons v vs) = suc (count_items vs)

abbrev pub count_fields : Fields → ℕ
count_fields end = 0
count_fields (field k v fs) = suc (count_fields fs)

-- `len(v)`
unfoldable pub json_len : Json → Result ℕ
json_len (str s) = ok (length s)
json_len (arr vs) = ok (count_items vs)
json_len (obj fs) = ok (count_fields fs)
json_len _ = err type_error

-- the value of a key; the parser has put the last of equal keys into the object
abbrev pub lookup_field : Text → Fields → Option Json
lookup_field k end = none
lookup_field k (field j v fs) = if j == k then some v else lookup_field k fs

or_default : Option Json → Json → Json
or_default none d = d
or_default (some v) d = v

-- `v.get(k, d)`
unfoldable pub json_get : Text → Json → Json → Result Json
unfolding or_default
json_get k d (obj fs) = ok (or_default (lookup_field k fs) d)
json_get k d _ = err attribute_error

-- `bool(v)`
unfoldable pub truthy : Json → Bool
truthy null = false
truthy (bool b) = b
truthy (num z) = not (is_zero z)
truthy (str s) = not (is_empty s)
truthy (arr nil) = false
truthy (arr (cons v vs)) = true
truthy (obj end) = false
truthy (obj (field k v fs)) = true

-- whether an item is the text
unfoldable pub has_item : Text → Items → Bool
has_item s nil = false
has_item s (cons (str t) vs) = t == s || has_item s vs
has_item s (cons v vs) = has_item s vs

is_given : Option Json → Bool
is_given none = false
is_given (some v) = true

-- `s in v`
unfoldable pub json_in : Text → Json → Result Bool
unfolding has_text has_item is_given
json_in s (str t) = ok (has_text t s)
json_in s (arr vs) = ok (has_item s vs)
json_in s (obj fs) = ok (is_given (lookup_field s fs))
json_in s _ = err type_error
