-- ===== src/Json.antt =====
-- Values of JSON.parse, and the reads that the proxy makes of them.
-- A finite JavaScript number is a dyadic rational: `scaled n k` stands for n / 2 ^ k.
use text.Mathlib.Text.{starts_with}
use godot_mcp.Base.{ℕ, String, Bool, true, false, Option, none, some, str_eq, if◌then◌else◌}

pub data Num : Type 0 where
  scaled : ℕ → ℕ → Num
  negative : ℕ → ℕ → Num

mutual
  pub data Json : Type 0 where
    null : Json
    bool : Bool → Json
    num : Num → Json
    str : String → Json
    arr : Items → Json
    obj : Fields → Json

  pub data Items : Type 0 where
    nil : Items
    cons : Json → Items → Items

  pub data Fields : Type 0 where
    end : Fields
    field : String → Json → Fields → Fields

unfoldable pub lookup_field : String → Fields → Option Json
lookup_field k end = none
lookup_field k (field j v fs) = if str_eq j k then some v else lookup_field k fs

-- `v.k` where `v` is an object; `none` is `undefined`.
unfoldable pub get : String → Json → Option Json
unfolding lookup_field
get k (obj fs) = lookup_field k fs
get k _ = none

-- `v && v.k`, chained.
abbrev pub get_in : String → Option Json → Option Json
get_in k none = none
get_in k (some v) = get k v

-- `typeof v === 'object' && v !== null`; an array is an object too.
abbrev pub is_object : Option Json → Bool
is_object (some (obj fs)) = true
is_object (some (arr xs)) = true
is_object _ = false

abbrev pub is_array : Option Json → Bool
is_array (some (arr xs)) = true
is_array _ = false

-- `typeof v === 'string'`, with the text.
abbrev pub text_of : Option Json → Option String
text_of (some (str s)) = some s
text_of _ = none

-- `v === s` for a text `s`.
abbrev pub is_text : String → Option Json → Bool
is_text s (some (str t)) = str_eq t s
is_text s _ = false

abbrev pub is_true : Option Json → Bool
is_true (some (bool b)) = b
is_true _ = false

-- `typeof v === 'string' && v.startsWith(p)`
abbrev pub text_starts : String → Option Json → Bool
text_starts p (some (str t)) = starts_with t p
text_starts p _ = false

-- `xs.some((e) => e && typeof e === 'object' && typeof e.k !== 'undefined')`
unfoldable pub any_has : String → Items → Bool
unfolding get
any_has k nil = false
any_has k (cons v xs) = elim (get k v) [ none ↦ any_has k xs | some _ ↦ true ]
