-- ===== src/Payloads.antt =====
-- The payload that an agent sends to a hook, as a tree of values (src/harness/hook_json.rs). Its text
-- is parsed by the JSON library.
pub mod Accepted
pub mod Hooks
pub mod Tools
use peekback.Base.{
  Bool, Option, Str, Str_discrete, [], false, if◌then◌else◌, nat_eq, none, not, option_eq, some,
  str_eq, ◌==◌,
}
use peekback.Base.Int.{int_eq}
use peekback.Base.Paths.{path_eq}

mutual
  pub data Value : Type 0 where
    null : Value
    boolean : Bool → Value
    number : Str → Value
    string : Str → Value
    array : Values → Value
    object : Fields → Value

  pub data Values : Type 0 where
    no_values : Values
    value : Value → Values → Values

  pub data Fields : Type 0 where
    no_fields : Fields
    field : Str → Value → Fields → Fields

-- `value["name"]`: null where there is no such field.
unfoldable pub field_of : Str → Fields → Value
unfolding Str_discrete
field_of name Fields.no_fields = Value.null
field_of name (Fields.field n v rest) = if n == name then v else field_of name rest

unfoldable pub index : Str → Value → Value
unfolding field_of
index name (Value.object fields) = field_of name fields
index name _ = Value.null

abbrev pub as_str : Value → Option Str
as_str (Value.string s) = some s
as_str _ = none

abbrev pub as_bool : Value → Option Bool
as_bool (Value.boolean b) = some b
as_bool _ = none

abbrev pub str_or_empty : Option Str → Str
str_or_empty none = []
str_or_empty (some s) = s

abbrev pub says : Option Bool → Bool → Bool
says none b = false
says (some a) b = if a then b else not b
