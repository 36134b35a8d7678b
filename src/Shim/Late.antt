-- ===== src/Shim/Late.antt =====
-- A line of a chain that is dead.
use godot_mcp.Base.{ℕ, ◌≡◌, true, false, none, List, arith}
use godot_mcp.Shim.{Shim, chain_exhausted, transient_error_response}
use godot_mcp.Shim.Chain.{says_wait, on_chain_stderr}

-- Where the respawns are exhausted, the answer to a call is not retryable; a line of a waiting
-- launcher that comes after its chain's death makes the answers retryable again, although no chain
-- is attached and no respawn waits.
pub late_line_hides_exhaustion :
    (pid : ℕ) (line : List ℕ) (s : Shim)
    → s.chain_state ≡ chain_exhausted
    → s.chain_proc ≡ none
    → s.rechain_timer ≡ false
    → says_wait line ≡ true
    → ((transient_error_response s).retryable ≡ false)
      × ((transient_error_response (on_chain_stderr pid line s)).retryable ≡ true)
      × ((on_chain_stderr pid line s).chain_proc ≡ none)
      × ((on_chain_stderr pid line s).rechain_timer ≡ false)
unfolding transient_error_response on_chain_stderr
late_line_hides_exhaustion pid line s e n t w = ground arith
