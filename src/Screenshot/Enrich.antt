-- ===== src/Screenshot/Enrich.antt =====
-- launch/see1240-screenshot-contract.mjs: what is added to the response of a capture, and the step
-- of launch/proxy/screenshot.mjs before it. The decoder of base64 and the outcome of the write are
-- arguments; a time and a width are whole numbers, or `none` where they are no finite number.
use godot_mcp.Base.{
  ℕ, ◌-◌, String, Bool, true, false, not, Option, none, some, List, [], ◌∷◌, ◌++◌, ltb, non_empty,
  if◌then◌else◌,
}
use godot_mcp.Json.{Json}
use godot_mcp.Screenshot.{
  FrameReason, FrameVerdict, Captured, frame_age_verdict, Dimensions, png_dimensions,
}

-- What the internal step of one frame comes back with.
pub data StepResult : Type 0 where
  step_done step_error step_timeout : StepResult

-- `autoStepPerformed`: null, `{ frames, ok }` or `{ error }`.
pub data AutoStep : Type 0 where
  not_stepped stepped step_failed : AutoStep

-- `runAutoStepThenForward`, as it records the step.
unfoldable pub performed_of : StepResult → AutoStep
performed_of step_done = stepped
performed_of step_error = step_failed
performed_of step_timeout = step_failed

-- The value is an object in both of the other cases.
abbrev pub is_performed : AutoStep → Bool
is_performed not_stepped = false
is_performed _ = true

pub data DecodeError : Type 0 where
  empty_base64 bad_png_header : DecodeError

pub data Export : Type 0 where
  exported : Dimensions → Export
  export_failed : Export
  undecodable : DecodeError → Export

pub data Advisory : Type 0 where
  -- With the reason, and whether the step was asked for.
  stale_risk : FrameReason → Bool → Advisory
  freshness_verified : Advisory
  -- With the width that was asked for.
  too_wide : Dimensions → ℕ → Advisory
  decode_hint : DecodeError → Advisory

-- An element of the response's content: an image with its data, if that is a text, another element,
-- or one of those that are added.
pub data Content : Type 0 where
  image : Option String → Content
  other : Json → Content
  advice : List Advisory → Content
  meta : Bool → ℕ → AutoStep → Export → Content

pub record Enrichment : Type 0 where
  pub advisory : List Advisory
  pub stale : Bool
  pub latency_ms : ℕ
  pub auto_step : AutoStep
  pub exports : Export

pub record CaptureCall : Type 0 where
  pub forwarded_at : Option ℕ
  pub now : Option ℕ
  pub step_requested : Bool
  pub step_performed : AutoStep
  pub max_width : Option ℕ
  pub threshold_ms : ℕ
  pub mutation_before_capture_ms : ℕ
  pub last_frame_advance_ms : ℕ
  pub has_fallback_hint : Bool
  pub is_written : Bool

unfoldable pub find_image : List Content → Option String
find_image [] = none
find_image (image (some s) ∷ cs) = some s
find_image (_ ∷ cs) = find_image cs

abbrev pub elapsed : Option ℕ → Option ℕ → ℕ
elapsed (some at) (some now) = now - at
elapsed _ _ = 0

abbrev pub captured_of : CaptureCall → Captured
captured_of k = record {
  latency = some (elapsed k.forwarded_at k.now);
  auto_stepped = is_performed k.step_performed;
  threshold_ms = k.threshold_ms;
  mutation_before_capture_ms = k.mutation_before_capture_ms;
  last_frame_advance_ms = k.last_frame_advance_ms;
}

abbrev pub width_advice : Option ℕ → Dimensions → List Advisory
width_advice none d = []
width_advice (some w) d = if ltb w d.width then too_wide d w ∷ [] else []

-- The export, with the part of the advisory that it adds.
unfoldable pub export_of : CaptureCall → String → Option Dimensions → Export × List Advisory
export_of k payload (some d) =
    if k.is_written then (exported d, width_advice k.max_width d) else (export_failed, [])
export_of k payload none =
    let err = if non_empty payload then bad_png_header else empty_base64 in
    (undecodable err, if k.has_fallback_hint then decode_hint err ∷ [] else [])

abbrev pub freshness_advice : CaptureCall → FrameVerdict → List Advisory
freshness_advice k v =
    if v.stale
    then stale_risk v.reason k.step_requested ∷ []
    else if is_performed k.step_performed
    then freshness_verified ∷ []
    else []

module _ (decode : String → List ℕ) where
  unfoldable pub enrich_payload : CaptureCall → String → Enrichment
  enrich_payload k payload =
      let v = frame_age_verdict (captured_of k) in
      let e =
        export_of k payload (if non_empty payload then png_dimensions (decode payload) else none) in
      record {
        advisory = freshness_advice k v ++ e.1;
        stale = v.stale;
        latency_ms = v.latency_ms;
        auto_step = k.step_performed;
        exports = e.0;
      }

  -- `enrichScreenshotResponse`; `none` is a result with no array of content.
  unfoldable pub enrich_screenshot_response :
      CaptureCall → Option (List Content) → Option Enrichment
  enrich_screenshot_response k none = none
  enrich_screenshot_response k (some content) = elim (find_image content) [
    | none ↦ none
    | some payload ↦ some (enrich_payload k payload)
  ]

-- `c && c.type === 'image'`
abbrev pub is_image : Content → Bool
is_image (image s) = true
is_image _ = false

-- The images of a content, or what is none, in their order.
unfoldable pub select : Bool → List Content → List Content
select wanted [] = []
select wanted (c ∷ cs) =
    let rest = select wanted cs in
    if (if wanted then is_image c else not (is_image c)) then c ∷ rest else rest

abbrev pub advise : List Advisory → List Content → List Content
advise [] cs = cs
advise (a ∷ more) cs = advice (a ∷ more) ∷ cs

-- The texts that are added.
abbrev pub texts_of : Enrichment → List Content
texts_of e = advise e.advisory (meta e.stale e.latency_ms e.auto_step e.exports ∷ [])

-- `spliceEnrichment`, on the content of the result.
unfoldable pub splice_enrichment : Option Enrichment → List Content → List Content
splice_enrichment none content = content
splice_enrichment (some e) content = select true content ++ (texts_of e ++ select false content)
