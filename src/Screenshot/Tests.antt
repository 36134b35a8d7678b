-- ===== src/Screenshot/Tests.antt =====
-- The theorem of the captures at a concrete input, and the splice of one.
use godot_mcp.Base.{
  ℕ, String, false, true, ◌≡◌, refl, none, some, List, [], ◌∷◌, non_empty, if◌then◌else◌,
}
use godot_mcp.Json.{str}
use godot_mcp.Screenshot.{png_dimensions}
use godot_mcp.Screenshot.Enrich.{
  CaptureCall, stepped, step_timeout, performed_of, Content, image, other, freshness_verified,
  enrich_payload, enrich_screenshot_response, find_image, export_of, select, splice_enrichment,
  Enrichment, bad_png_header, undecodable, advice, meta,
}
use godot_mcp.Screenshot.Spliced.{failed_step_verified}

-- A call that was changed after the last frame, and whose capture takes ten seconds.
abbrev late_call : CaptureCall
late_call = record {
  forwarded_at = some 1000;
  now = some 11000;
  step_requested = true;
  step_performed = stepped;
  max_width = none;
  threshold_ms = 1500;
  mutation_before_capture_ms = 900;
  last_frame_advance_ms = 100;
  has_fallback_hint = false;
  is_written = true;
}

abbrev one_image : List Content
one_image = other (str "frame") ∷ image (some "aGk=") ∷ []

no_bytes : String → List ℕ
no_bytes s = []

failed_step_verified_example :
    let k = record late_call { step_performed = performed_of step_timeout } in
    let told = enrich_payload no_bytes k "aGk=" in
    (enrich_screenshot_response no_bytes k (some one_image) ≡ some told)
    × (told.stale ≡ false)
    × (told.advisory
        ≡ freshness_verified
          ∷ (export_of late_call "aGk="
              (if non_empty "aGk=" then png_dimensions (no_bytes "aGk=") else none)).1)
unfolding performed_of find_image
failed_step_verified_example =
    failed_step_verified no_bytes step_timeout late_call one_image "aGk=" refl refl

abbrev told_fresh : Enrichment
told_fresh = record {
  advisory = freshness_verified ∷ [];
  stale = false;
  latency_ms = 5;
  auto_step = stepped;
  exports = undecodable bad_png_header;
}

image_first :
    splice_enrichment (some told_fresh) one_image
    ≡ image (some "aGk=")
      ∷ advice (freshness_verified ∷ [])
      ∷ meta false 5 stepped (undecodable bad_png_header)
      ∷ other (str "frame")
      ∷ []
unfolding splice_enrichment select
image_first = refl
