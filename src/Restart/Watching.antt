-- ===== src/Restart/Watching.antt =====
-- When the watch for the relaunched editor ends, and what it takes for one.
use godot_mcp.Base.{
  ◌∙◌, Bool-cases, inl, inr, ap, ◌⊎◌, ℕ, ◌≡◌, ◌≢◌, refl, Bool, true, false, not, ◌&&◌, ◌||◌, some,
  List, [], ◌∷◌, is_some, arith,
}
use godot_mcp.State.{Proxy}
use godot_mcp.Restart.{
  Poll, Watch, going, Outcome, ended, watching, goes_on, watch_phase, watch_poll, note_poll, drive,
  drive_restart_respawn,
}

-- A round that comes after the deadline or sees a shutdown.
unfoldable pub has_last : ℕ → List Poll → Bool
has_last deadline [] = false
has_last deadline (poll ∷ polls) = not (goes_on deadline poll) || has_last deadline polls

-- Every probe of the rounds is answered.
unfoldable pub all_answered : List Poll → Bool
all_answered [] = true
all_answered (poll ∷ polls) = poll.answers && all_answered polls

last_ends :
    (deadline : ℕ) (w : Watch) (poll : Poll)
    → goes_on deadline poll ≡ false
    → watch_poll deadline w poll ≡ ended false
unfolding watch_poll
last_ends deadline w poll h = rw h refl

ended_drives :
    (deadline : ℕ) (r : Bool) (polls : List Poll) (p : Proxy)
    → (drive deadline (ended r) polls p).0 ≡ some r
unfolding drive
ended_drives deadline r [] p = refl
ended_drives deadline r (poll ∷ polls) p = refl

drive-ends :
    (deadline : ℕ) (o : Outcome) (polls : List Poll) (p : Proxy)
    → has_last deadline polls ≡ true
    → is_some (drive deadline o polls p).0 ≡ true
unfolding drive has_last
drive-ends deadline (ended r) polls p h = refl
drive-ends deadline (watching w) [] p h = cc
drive-ends deadline (watching w) (poll ∷ polls) p h = elim (Bool-cases (goes_on deadline poll)) [
  | inl on ↦
      drive-ends deadline (watch_poll deadline w poll) polls (note_poll deadline w poll p)
        (ground arith)
  | inr off ↦
      let next = note_poll deadline w poll p in
      ap (λ o. is_some (drive deadline o polls next).0) (last_ends deadline w poll off)
      ∙ ap (λ o. is_some o) (ended_drives deadline false polls next)
]

-- The watch ends with a result once a round comes at or after the deadline or sees a shutdown.
pub watch_ends :
    (deadline : ℕ) (polls : List Poll) (p : Proxy)
    → has_last deadline polls ≡ true
    → is_some (drive_restart_respawn deadline polls p).0 ≡ true
unfolding drive_restart_respawn
watch_ends deadline polls p h = drive-ends deadline (watching (going 0)) polls p h

-- A watch that has confirmed nothing: it has given up, or waits for the old editor to go.
unfoldable pub IsUnconfirmed : Outcome → Type 0
IsUnconfirmed o = (o ≡ ended false) ⊎ (o ≡ watching (going 0))

answered_round :
    (deadline : ℕ) (poll : Poll)
    → poll.answers ≡ true
    → IsUnconfirmed (watch_poll deadline (going 0) poll)
unfolding watch_poll watch_phase IsUnconfirmed
answered_round deadline poll h = ground arith

drive-answered :
    (deadline : ℕ) (o : Outcome) (polls : List Poll) (p : Proxy)
    → IsUnconfirmed o
    → all_answered polls ≡ true
    → ((drive deadline o polls p).0 ≢ some true) × ((drive deadline o polls p).1 ≡ p)
unfolding drive all_answered IsUnconfirmed note_poll
drive-answered deadline o [] p (inl e) h = rw e ((λ q. cc), refl)
drive-answered deadline o [] p (inr e) h = rw e ((λ q. cc), refl)
drive-answered deadline o (poll ∷ polls) p (inl e) h = rw e ((λ q. cc), refl)
drive-answered deadline o (poll ∷ polls) p (inr e) h = rw e (
    drive-answered deadline (watch_poll deadline (going 0) poll) polls p
      (answered_round deadline poll (ground arith)) (ground arith))

-- An editor that answers every probe is never taken for a relaunched one: the watch never succeeds,
-- and leaves the proxy as it is.
pub answered_never_restarted :
    (deadline : ℕ) (polls : List Poll) (p : Proxy)
    → all_answered polls ≡ true
    → ((drive_restart_respawn deadline polls p).0 ≢ some true)
      × ((drive_restart_respawn deadline polls p).1 ≡ p)
unfolding drive_restart_respawn IsUnconfirmed
answered_never_restarted deadline polls p h =
    drive-answered deadline (watching (going 0)) polls p (inr refl) h
