-- ===== src/Drag/Window.antt =====
-- The times of a drag's entries.
use mathlib.Core.Path.{subst}
use godot_mcp.Base.{none}
use godot_mcp.Drag.{
  expand_drag, duration_of, button_of, point_of, waypoints_of, Checked, passes, or_fail, ◌>>=◌,
}
use godot_mcp.Base.{String}
use godot_mcp.Base.{
  ℕ, suc, ◌+◌, ◌≡◌, false, Option, some, List, [], ◌∷◌, length, arith, Bool-cases, inl, inr, refl,
}
use godot_mcp.Json.{Num, num, Json, Items, nil, cons, get, lookup_field}
use godot_mcp.Drag.{
  Arithmetic, whole, Point, move_entry, press_entry, last_motion, motion_time, motions, timeline,
}

-- What the timeline relies on: the order of finite numbers, and the signs of sums, of products, of
-- quotients and of what is rounded.
pub record IsOrdered (a : Arithmetic) : Type 0 where
  pub reflexive : (t : Num) → a.below t t ≡ false
  pub transitive : (t u v : Num) → a.below u t ≡ false → a.below v u ≡ false → a.below v t ≡ false
  pub plus_grows : (t u : Num) → a.below u (whole 0) ≡ false → a.below (a.plus t u) t ≡ false
  pub minus_falls : (t : Num) → a.below t (a.minus t (whole 1)) ≡ false
  pub times_sign :
      (t : Num) (n : ℕ)
      → a.below t (whole 0) ≡ false
      → a.below (a.times t (whole n)) (whole 0) ≡ false
  pub over_sign :
      (t : Num) (n : ℕ)
      → a.below t (whole 0) ≡ false
      → a.below (a.over t (whole (n + 1))) (whole 0) ≡ false
  pub whole_sign : (n : ℕ) → a.below (whole n) (whole 0) ≡ false
  pub round_sign : (t : Num) → a.below t (whole 0) ≡ false → a.below (a.round t) (whole 0) ≡ false

-- An entry that starts in the span of the drag.
pub record StartsWithin (a : Arithmetic) (start finish : Num) (e : Json) : Type 0 where
  pub at : Num
  pub starts_at : get "start_ms" e ≡ some (num at)
  pub not_before : a.below at start ≡ false
  pub not_after : a.below finish at ≡ false

abbrev pub AllItems : (Json → Type 0) → Items → Type 0
AllItems P nil = Unit
AllItems P (cons x xs) = P x × AllItems P xs

module _ (a : Arithmetic) (o : IsOrdered a) (start dur : Num)
    (lasts : a.below dur (whole 0) ≡ false) where
  last_motion_bounds :
      (a.below (last_motion a start (a.plus start dur)) start ≡ false)
      × (a.below (a.plus start dur) (last_motion a start (a.plus start dur)) ≡ false)
  last_motion_bounds = elim (Bool-cases (a.below (a.minus (a.plus start dur) (whole 1)) start)) [
    | inl early ↦ rw early (o.reflexive start, o.plus_grows start dur lasts)
    | inr late ↦ rw late (late, o.minus_falls (a.plus start dur))
  ]

  raw_time : ℕ → ℕ → Num
  raw_time i n = a.plus start (a.round (a.over (a.times dur (whole (i + 1))) (whole (n + 1))))

  raw_time_bound : (i n : ℕ) → a.below (raw_time i n) start ≡ false
  unfolding raw_time
  raw_time_bound i n =
      o.plus_grows start _ (o.round_sign _ (o.over_sign _ n (o.times_sign dur (i + 1) lasts)))

  motion_time_bounds :
      (i n : ℕ)
      → (a.below (motion_time a start dur i n) start ≡ false)
        × (a.below (a.plus start dur) (motion_time a start dur i n) ≡ false)
  unfolding motion_time raw_time
  motion_time_bounds i n =
      let bound = last_motion a start (a.plus start dur) in
      elim (Bool-cases (a.below bound (raw_time i n))) [
        | inl above ↦ rw above last_motion_bounds
        | inr fits ↦ rw fits (
          raw_time_bound i n,
          o.transitive (raw_time i n) bound (a.plus start dur) fits last_motion_bounds.1,
        )
      ]

  motions-StartsWithin :
      (to : Point) (i n : ℕ) (ws : List Point)
      → AllItems (StartsWithin a start (a.plus start dur)) (motions a to start dur i n ws)
  unfolding motions get lookup_field
  motions-StartsWithin to i n [] = (
    record {
      at = a.plus start dur;
      starts_at = refl;
      not_before = o.plus_grows start dur lasts;
      not_after = o.reflexive (a.plus start dur);
    },
    tt,
  )
  motions-StartsWithin to i n (w ∷ ws) = (
    record {
      at = motion_time a start dur i n;
      starts_at = refl;
      not_before = (motion_time_bounds i n).0;
      not_after = (motion_time_bounds i n).1;
    },
    motions-StartsWithin to (suc i) n ws,
  )

  first-StartsWithin :
      (e : Json) → get "start_ms" e ≡ some (num start) → StartsWithin a start (a.plus start dur) e
  first-StartsWithin e h = record {
    at = start;
    starts_at = h;
    not_before = o.reflexive start;
    not_after = o.plus_grows start dur lasts;
  }

  timeline-StartsWithin :
      (from to : Point) (button : String) (waypoints : List Point)
      → AllItems
          (StartsWithin a start (a.plus start dur))
          (timeline a from to button start dur waypoints)
  unfolding timeline press_entry get lookup_field
  timeline-StartsWithin from to button waypoints = (
    first-StartsWithin (move_entry from start) refl,
    (
      first-StartsWithin (press_entry a from button start dur) refl,
      motions-StartsWithin to 0 (length waypoints) waypoints,
    ),
  )

>>=-eq-passes {ℓ κ} :
    {A : Type ℓ} {B : Type κ} (why : String) (o : Option A) (f : A → Checked B) {b : B}
    → (or_fail why o >>= f) ≡ passes b
    → (x : A) × (o ≡ some x) × (f x ≡ passes b)
>>=-eq-passes why none f h = cc
>>=-eq-passes why (some x) f h = (x, refl, h)

duration_sign :
    (a : Arithmetic) (o : IsOrdered a) (n : ℕ) (v : Option Json) (t : Num)
    → duration_of a n v ≡ some t
    → a.below t (whole 0) ≡ false
duration_sign a o n none t h = ground (arith, o.whole_sign n)
duration_sign a o n (some v) t h = ground arith

passes-injective {ℓ} : {A : Type ℓ} (x y : A) → passes x ≡ passes y → x ≡ y
passes-injective x y h = cc

-- A drag is expanded to entries that start within it: where the expansion succeeds, over any
-- arithmetic with the order and the signs of JavaScript's finite numbers, there are a start and a
-- duration, neither of them negative, and every entry of the result, the press and each move, starts
-- at the start or later and at the start plus the duration or earlier. The two are the `start_ms` and
-- `duration_ms` of the entry, 0 and 300 by default, whatever the drag itself holds under these names:
-- the comments and the error texts put them inside the drag.
pub expand_drag-StartsWithin :
    (a : Arithmetic) (o : IsOrdered a) (entry d : Json) (out : Items)
    → expand_drag a entry d ≡ passes out
    → (start : Num) × (dur : Num) × (duration_of a 0 (get "start_ms" entry) ≡ some start)
      × (duration_of a 300 (get "duration_ms" entry) ≡ some dur)
      × (a.below start (whole 0) ≡ false)
      × (a.below dur (whole 0) ≡ false)
      × AllItems (StartsWithin a start (a.plus start dur)) out
unfolding expand_drag
expand_drag-StartsWithin a o entry d out h =
    let (from, _, h1) = >>=-eq-passes "drag.from" (point_of (get "from" d)) _ h in
    let (to, _, h2) = >>=-eq-passes "drag.to" (point_of (get "to" d)) _ h1 in
    let (button, _, h3) = >>=-eq-passes "drag.button" (button_of (get "button" d)) _ h2 in
    let (start, s, h4) =
      >>=-eq-passes "drag.start_ms" (duration_of a 0 (get "start_ms" entry)) _ h3 in
    let (dur, t, h5) =
      >>=-eq-passes "drag.duration_ms" (duration_of a 300 (get "duration_ms" entry)) _ h4 in
    let (ws, _, h6) =
      >>=-eq-passes "drag.waypoints" (waypoints_of a from to dur (get "waypoints" d)) _ h5 in
    let lasts = duration_sign a o 300 (get "duration_ms" entry) dur t in
    (
      start,
      dur,
      s,
      t,
      duration_sign a o 0 (get "start_ms" entry) start s,
      lasts,
      subst (λ xs. AllItems (StartsWithin a start (a.plus start dur)) xs)
          (passes-injective (timeline a from to button start dur ws) out h6)
          (timeline-StartsWithin a o start dur lasts from to button ws),
    )
