-- ===== src/Message.antt =====
-- JSON-RPC messages of the client, as launch/proxy/router.mjs reads them, and the answers to them.
-- A line of the client is represented by the message that JSON.parse makes of it; the proxy queues
-- and forwards only lines that parsed, and JSON.stringify of a message is the line of that message.
use godot_mcp.Base.{
  String, ◌≡◌, refl, Bool, true, false, ◌&&◌, ◌||◌, Option, none, some, List, [], ◌∷◌, ◌++◌, ◌==◌,
  str_eq, if◌then◌else◌, arith, eq_iff, ap,
}
use godot_mcp.Json.{Num, scaled, negative, Json}

pub data CallId : Type 0 where
  null_id : CallId
  number : Num → CallId
  text : String → CallId

abbrev pub same_num : Num → Num → Bool
same_num (scaled m k) (scaled n l) = (m == n) && (k == l)
same_num (negative m k) (negative n l) = (m == n) && (k == l)
same_num _ _ = false

-- Equality of keys in a Map or a Set.
unfoldable pub same_id : CallId → CallId → Bool
same_id null_id null_id = true
same_id (number m) (number n) = same_num m n
same_id (text s) (text t) = str_eq s t
same_id _ _ = false

-- `method` is `msg.method || ''`.
pub record Message : Type 0 where
  pub id : Option CallId
  pub method : String
  pub params : Option Json

pub same_id_refl : (i : CallId) → same_id i i ≡ true
unfolding same_id
same_id_refl null_id = refl
same_id_refl (number (scaled m k)) = ground arith
same_id_refl (number (negative m k)) = ground arith
same_id_refl (text s) = ground (arith, eq_iff s s)

same_num_sound : (m n : Num) → same_num m n ≡ true → m ≡ n
same_num_sound m n h = ground arith

pub same_id_sound : (i j : CallId) → same_id i j ≡ true → i ≡ j
unfolding same_id
same_id_sound null_id null_id h = refl
same_id_sound (number m) (number n) h = ap number (same_num_sound m n h)
same_id_sound (text s) (text t) h = ap text ((eq_iff s t).0 h)
same_id_sound null_id (number n) h = cc
same_id_sound null_id (text t) h = cc
same_id_sound (number m) null_id h = cc
same_id_sound (number m) (text t) h = cc
same_id_sound (text s) null_id h = cc
same_id_sound (text s) (number n) h = cc

-- A Set in insertion order: `add`, `delete`, `has`.
unfoldable pub has : CallId → List CallId → Bool
has i [] = false
has i (j ∷ js) = same_id i j || has i js

unfoldable pub add : CallId → List CallId → List CallId
unfolding has
add i js = if has i js then js else js ++ i ∷ []

unfoldable pub delete : CallId → List CallId → List CallId
delete i [] = []
delete i (j ∷ js) = if same_id i j then delete i js else j ∷ delete i js

-- A Map in insertion order.
module _ {ℓ} {V : Type ℓ} where
  unfoldable pub map_get : CallId → List (CallId × V) → Option V
  map_get i [] = none
  map_get i ((j, v) ∷ m) = if same_id i j then some v else map_get i m

  unfoldable pub map_set : CallId → V → List (CallId × V) → List (CallId × V)
  map_set i v [] = (i, v) ∷ []
  map_set i v ((j, w) ∷ m) = if same_id i j then (j, v) ∷ m else (j, w) ∷ map_set i v m

  unfoldable pub map_delete : CallId → List (CallId × V) → List (CallId × V)
  map_delete i [] = []
  map_delete i ((j, v) ∷ m) = if same_id i j then map_delete i m else (j, v) ∷ map_delete i m
