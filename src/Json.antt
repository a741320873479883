-- ===== src/Json.antt =====
-- What `json.loads` returns, and the Python operations on it that the handlers use.
use nalang_project.Prelude.{
  String, Bool, false, Option, none, some, ℤ, if◌then◌else◌, ◌==◌, string_eq,
}
use nalang_project.Raise.{Result, ok, err, key_error, type_error, attribute_error}

mutual
  pub data Json : Type 0 where
    null : Json
    bool : Bool → Json
    num : ℤ → Json
    str : String → Json
    arr : Items → Json
    obj : Fields → Json

  pub data Items : Type 0 where
    nil : Items
    cons : Json → Items → Items

  pub data Fields : Type 0 where
    end : Fields
    field : String → Json → Fields → Fields

pub find_field : String → Fields → Option Json
find_field k end = none
find_field k (field j v fs) = if j == k then some v else find_field k fs

abbrev or_null : Option Json → Json
or_null none = null
or_null (some v) = v

-- `value.get(key)`: `None` for a missing key, AttributeError on what is no dict
unfoldable pub get : String → Json → Result Json
unfolding find_field
get k (obj fs) = ok (or_null (find_field k fs))
get k _ = err attribute_error

abbrev or_key_error : Option Json → Result Json
or_key_error none = err key_error
or_key_error (some v) = ok v

-- `value[key]`: KeyError for a missing key, TypeError on what is no dict
unfoldable pub index : String → Json → Result Json
unfolding find_field
index k (obj fs) = or_key_error (find_field k fs)
index k _ = err type_error

-- `value == "text"`
abbrev pub is_text : String → Json → Bool
is_text t (str s) = s == t
is_text t _ = false

abbrev or_default : Json → Option Json → Json
or_default d none = d
or_default d (some v) = v

-- `value.get(key, default)`
unfoldable pub get_or : String → Json → Json → Result Json
unfolding find_field
get_or k d (obj fs) = ok (or_default d (find_field k fs))
get_or k d _ = err attribute_error
