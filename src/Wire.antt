-- ===== src/Wire.antt =====
-- server/src/connection/protocol.ts: requests and responses of the bridge, and the schema that a
-- response has to pass. A missing `result` passes as `undefined`, since `z.unknown()` takes it.
use godot_mcp.Base.{String, Option, none, some}
use godot_mcp.Json.{Json, str, get, text_of, is_text}
use godot_mcp.Base.{if◌then◌else◌}

pub record Request : Type 0 where
  pub id : String
  pub command : String
  pub params : Json

pub record ResponseError : Type 0 where
  pub code : String
  pub message : String
  pub detail : Option String

pub data Response : Type 0 where
  success : String → Option Json → Response
  failure : String → ResponseError → Response

abbrev pub response_id : Response → String
response_id (success i r) = i
response_id (failure i e) = i

unfoldable pub parse_success : Json → Option Response
parse_success v = elim (text_of (get "id" v)) [
  | none ↦ none
  | some i ↦ if is_text "success" (get "status" v) then some (success i (get "result" v)) else none
]

infixl 5 ◌>>=◌
abbrev pub ◌>>=◌ {ℓ κ} : {A : Type ℓ} {B : Type κ} → Option A → (A → Option B) → Option B
none >>= f = none
some a >>= f = f a

-- `detail: z.string().optional()`: absent or a text.
unfoldable pub parse_detail : Option Json → Option (Option String)
parse_detail none = some none
parse_detail (some (str s)) = some (some s)
parse_detail (some _) = none

unfoldable pub parse_error_body : Json → Option ResponseError
parse_error_body v = do
  code ← text_of (get "code" v)
  message ← text_of (get "message" v)
  detail ← parse_detail (get "detail" v)
  some (record { code = code; message = message; detail = detail })

unfoldable pub parse_error : Json → Option Response
parse_error v = do
  i ← text_of (get "id" v)
  body ← get "error" v
  e ← parse_error_body body
  if is_text "error" (get "status" v) then some (failure i e) else none

-- `ResponseSchema.safeParse`: the first of the two schemas that accepts.
unfoldable pub parse_response : Json → Option Response
parse_response v = elim (parse_success v) [ some r ↦ some r | none ↦ parse_error v ]

-- `createRequest`; the caller draws the identifier.
abbrev pub create_request : String → String → Json → Request
create_request i command params = record { id = i; command = command; params = params }
