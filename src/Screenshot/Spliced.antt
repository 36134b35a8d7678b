-- ===== src/Screenshot/Spliced.antt =====
-- What the client of a capture is told.
use godot_mcp.Base.{
  non_empty, ℕ, String, Bool, true, false, not, none, some, List, [], ◌∷◌, ◌++◌, ◌≡◌, refl, arith,
  if◌then◌else◌,
}
use mathlib.Core.List.{append-nil}
use godot_mcp.Screenshot.{frame_age_verdict, png_dimensions}
use godot_mcp.Screenshot.Enrich.{
  AutoStep, step_failed, StepResult, performed_of, Advisory, freshness_verified, Content,
  Enrichment, CaptureCall, find_image, enrich_payload, enrich_screenshot_response, select, texts_of,
  splice_enrichment, export_of, advise, meta, Export,
}

select-append : (b : Bool) (xs ys : List Content) → select b (xs ++ ys) ≡ select b xs ++ select b ys
unfolding select
select-append b [] ys = refl
select-append b (x ∷ xs) ys = ground (arith, select-append b xs ys)

select-select : (b : Bool) (xs : List Content) → select b (select b xs) ≡ select b xs
unfolding select
select-select b [] = refl
select-select b (x ∷ xs) = ground (arith, select-select b xs)

select-select-not : (b : Bool) (xs : List Content) → select b (select (not b) xs) ≡ []
unfolding select
select-select-not b [] = refl
select-select-not b (x ∷ xs) = ground (arith, select-select-not b xs)

advise-select :
    (as_given : List Advisory) (stale : Bool) (ms : ℕ) (step : AutoStep) (x : Export)
    → let texts = advise as_given (meta stale ms step x ∷ []) in
      (select true texts ≡ []) × (select false texts ≡ texts)
unfolding select
advise-select [] stale ms step x = (refl, refl)
advise-select (a ∷ more) stale ms step x = (refl, refl)

-- The splice keeps every element of the content: the images are those of the content, in their
-- order, and the rest is the texts that are added and then the rest of the content, in its order.
pub splice-select :
    (e : Enrichment) (content : List Content)
    → let out = splice_enrichment (some e) content in
      (select true out ≡ select true content)
      × (select false out ≡ texts_of e ++ select false content)
unfolding splice_enrichment
splice-select e content =
    let shown = select true content in
    let rest = select false content in
    let texts = advise-select e.advisory e.stale e.latency_ms e.auto_step e.exports in
    (
      rw
          (
            select-append true shown (texts_of e ++ rest),
            select-append true (texts_of e) rest,
            select-select true content,
            texts.0,
            select-select-not true content,
          )
          (append-nil shown),
      rw
          (
            select-append false shown (texts_of e ++ rest),
            select-append false (texts_of e) rest,
            select-select-not false content,
            texts.1,
            select-select false content,
          )
          refl,
    )

-- A capture whose step of a frame has failed or timed out is reported as verified: it is not stale,
-- and the advice says that the step was performed, whatever its latency and whatever was changed
-- after the last frame.
pub failed_step_verified :
    (decode : String → List ℕ) (r : StepResult) (k : CaptureCall) (content : List Content)
    (payload : String)
    → performed_of r ≡ step_failed
    → find_image content ≡ some payload
    → let told = enrich_payload decode (record k { step_performed = performed_of r }) payload in
      (enrich_screenshot_response decode
          (record k { step_performed = performed_of r })
          (some content)
        ≡ some told)
      × (told.stale ≡ false)
      × (told.advisory
          ≡ freshness_verified
            ∷ (export_of k payload
                (if non_empty payload then png_dimensions (decode payload) else none)).1)
unfolding enrich_screenshot_response enrich_payload frame_age_verdict export_of
failed_step_verified decode r k content payload fails found = ground arith
