-- ===== src/Router.antt =====
-- launch/proxy/router.mjs: `handleClaudeMessage`, in the order of its early returns, and the record
-- of a call on disk. A handler runs at one time `now`.
-- The drag sugar and the pre-check of a source are an interface, `Tools`.
pub mod Kinds
pub mod Gate
pub mod Handle
pub mod Flush
mod Accounts
mod Settles
mod Hands
pub mod Drains
mod Stuck
mod Tests
use godot_mcp.Base.{ℕ, String, ◌≡◌, Bool, true, false, ◌&&◌, Option, none, some, if◌then◌else◌}
use godot_mcp.Message.{Message}
use godot_mcp.State.{Proxy}

-- `expandDragInToolsCall`: an error, or the message with its drag entries expanded.
pub data Expanded : Type 0 where
  malformed : String → Expanded
  expanded : Message → Expanded

-- `precheckExecSource`: none where the source passes, or the reason of the rejection.
pub record Tools : Type 0 where
  pub expand_drag : Message → Expanded
  pub precheck : String → Option String
  pub expand_keeps :
      (m : Message) {m' : Message}
      → expand_drag m ≡ expanded m'
      → (m'.id ≡ m.id) × (m'.method ≡ m.method)

-- A handler that has returned, or that goes on.
pub data Flow {ℓ} (A : Type ℓ) : Type ℓ where
  stop : Proxy → Flow A
  go : A → Flow A

infixl 5 ◌>>=◌
abbrev pub ◌>>=◌ {ℓ κ} : {A : Type ℓ} {B : Type κ} → Flow A → (A → Flow B) → Flow B
stop p >>= f = stop p
go a >>= f = f a

abbrev pub result : Flow Proxy → Proxy
result (stop p) = p
result (go p) = p
