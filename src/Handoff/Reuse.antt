-- ===== src/Handoff/Reuse.antt =====
-- When the record on disk permits the reuse of an editor.
use godot_mcp.Base.{
  str_eq_exclusive, refl, String, ◌≡◌, ◌↔◌, ◌≢◌, true, false, ◌&&◌, some, arith, eq_iff, str_eq,
}
use godot_mcp.Handoff.{
  ReuseInput, handoff_reuse, has_lane, worktree_serves, decide_reuse_by_lane,
  decide_reuse_single_source,
}

-- What has to hold for an editor to be adopted.
pub record IsAdoptable (i : ReuseInput) : Type 0 where
  pub here : i.same_port ≡ true
  pub lane : has_lane i.state ≡ true
  pub not_dead : i.editor_alive ≢ some false
  pub not_owned : (str_eq i.state "WARM" && i.holder_proxy_alive) ≡ false
  pub serves : worktree_serves i.our_worktree i.holder_worktree ≡ true

-- An editor is adopted exactly when the record is of our port, is warm, warming or recovering, does
-- not say that the editor is dead, is not warm with a live proxy, and one worktree is the other or
-- lies under it.
pub reuse_iff :
    (i : ReuseInput) → ((decide_reuse_single_source i).action ≡ handoff_reuse) ↔ IsAdoptable i
unfolding decide_reuse_single_source decide_reuse_by_lane
reuse_iff i = (
  λ h. ground (arith, eq_iff i.state "FAILED_CLEAN"),
  λ h. ground (
    arith,
    eq_iff i.state "FAILED_CLEAN",
    eq_iff i.state "WARM",
    eq_iff i.state "WARMING",
    eq_iff i.state "RECOVERING",
    str_eq_exclusive i.state "FAILED_CLEAN" "WARM" refl,
    str_eq_exclusive i.state "FAILED_CLEAN" "WARMING" refl,
    str_eq_exclusive i.state "FAILED_CLEAN" "RECOVERING" refl,
  ),
)

-- A worktree serves another exactly when the other serves it.
pub worktree_serves_comm : (a b : String) → worktree_serves a b ≡ worktree_serves b a
unfolding worktree_serves
worktree_serves_comm a b =
    let same : str_eq b a ≡ str_eq a b = ground (arith, eq_iff a b, eq_iff b a) in ground arith
