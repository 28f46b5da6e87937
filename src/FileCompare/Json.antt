-- ===== src/FileCompare/Json.antt =====
-- JSON values of the library. Floating-point numbers are left out; what the library prints and
-- parses is a parameter.
pub mod Values
use sora_transport.Prelude.{Bool, true, false, Option, none, some, if◌then◌else◌}
use sora_transport.Prelude.Int.{ℤ, pos}
use sora_transport.Prelude.Result.{Result, ok, err}
use sora_transport.Prelude.Text.{Text, text_eq}

mutual
  pub data Json : Type 0 where
    null : Json
    boolean : Bool → Json
    number : ℤ → Json
    text : Text → Json
    array : Items → Json
    object : Fields → Json

  pub data Items : Type 0 where
    no_item : Items
    item : Json → Items → Items

  pub data Fields : Type 0 where
    no_field : Fields
    field : Text → Json → Fields → Fields

-- `json::dump` and `json::parse`, which throw where these return none.
pub record Codec : Type 0 where
  pub dump : Json → Option Text
  pub parse : Text → Option Json

-- `json::find`.
abbrev pub find : Text → Fields → Option Json
find key no_field = none
find key (field name value rest) =
    let later = find key rest in if text_eq key name then some value else later

pub data MessageError : Type 0 where
  bad_json dump_failed not_an_object type_missing unexpected_type files_missing wrong_type :
      MessageError
  compare_cancelled queue_failed status_failed : MessageError

-- `get<std::string>()`, and `get` of an integer, before its cast.
abbrev pub get_text : Json → Result MessageError Text
get_text (text t) = ok t
get_text _ = err wrong_type

abbrev pub get_number : Json → Result MessageError ℤ
get_number (number z) = ok z
get_number (boolean true) = ok (pos 1)
get_number (boolean false) = ok (pos 0)
get_number _ = err wrong_type

-- `json::value(key, default)`.
abbrev pub value_of :
    {A : Type 0} → Option Json → A → (Json → Result MessageError A) → Result MessageError A
value_of none default get = ok default
value_of (some json) default get = get json
