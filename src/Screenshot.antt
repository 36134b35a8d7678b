-- ===== src/Screenshot.antt =====
-- launch/see1240-screenshot-contract.mjs: the freshness of a captured frame, and the size of a PNG.
-- A buffer is the list of its bytes; a latency is whole milliseconds, or `none` where it is no
-- finite number. `resolveStaleCaptureMs` is read on the code units of the variable's value.
pub mod Enrich
mod Freshness
mod Sizes
mod Spliced
mod Tests
use godot_mcp.Base.{
  ℕ, zero, suc, ◌+◌, ◌*◌, ◌==◌, Bool, true, false, not, ◌&&◌, ◌||◌, Option, none, some, List, [],
  ◌∷◌, ltb, leb, length, drop, is_digit, take_digits, if◌then◌else◌,
}

abbrev pub default_stale_capture_ms : ℕ
default_stale_capture_ms = 1500

abbrev pub all_digits : List ℕ → Bool
all_digits [] = true
all_digits (c ∷ cs) = is_digit c && all_digits cs

-- `/^\d+$/.test(raw) && Number(raw) >= 1 ? Number(raw) : DEFAULT_STALE_CAPTURE_MS`
unfoldable pub resolve_stale_capture_ms : Option (List ℕ) → ℕ
resolve_stale_capture_ms none = default_stale_capture_ms
resolve_stale_capture_ms (some []) = default_stale_capture_ms
resolve_stale_capture_ms (some (c ∷ cs)) =
    let n = (take_digits 0 (c ∷ cs)).0 in
    if all_digits (c ∷ cs) && leb 1 n then n else default_stale_capture_ms

pub data FrameReason : Type 0 where
  auto_step no_step_after_mutation latency_over_threshold ok : FrameReason

pub record FrameVerdict : Type 0 where
  pub stale : Bool
  pub latency_ms : ℕ
  pub reason : FrameReason

pub record Captured : Type 0 where
  pub latency : Option ℕ
  pub auto_stepped : Bool
  pub threshold_ms : ℕ
  pub mutation_before_capture_ms : ℕ
  pub last_frame_advance_ms : ℕ

abbrev pub latency_of : Option ℕ → ℕ
latency_of none = 0
latency_of (some ms) = ms

-- `frameAgeVerdict`
unfoldable pub frame_age_verdict : Captured → FrameVerdict
frame_age_verdict c =
    let latency = latency_of c.latency in
    if c.auto_stepped
    then record { stale = false; latency_ms = latency; reason = auto_step }
    else if ltb 0 c.mutation_before_capture_ms
        && ltb c.last_frame_advance_ms c.mutation_before_capture_ms
    then record { stale = true; latency_ms = latency; reason = no_step_after_mutation }
    else record {
      stale = ltb c.threshold_ms latency;
      latency_ms = latency;
      reason = if ltb c.threshold_ms latency then latency_over_threshold else ok;
    }

-- `buf.readUInt32BE(0)`, of a buffer with four bytes or more.
abbrev pub read_uint32_be : List ℕ → ℕ
read_uint32_be (a ∷ b ∷ c ∷ d ∷ bytes) = a * 16777216 + b * 65536 + c * 256 + d
read_uint32_be _ = 0

pub record Dimensions : Type 0 where
  pub width : ℕ
  pub height : ℕ

-- `pngDimensions`
unfoldable pub png_dimensions : List ℕ → Option Dimensions
png_dimensions bytes =
    if ltb (length bytes) 24
    then none
    else if not (read_uint32_be bytes == 0x89504e47)
        || not (read_uint32_be (drop 4 bytes) == 0x0d0a1a0a)
    then none
    else if not (read_uint32_be (drop 12 bytes) == 0x49484452)
    then none
    else some
        (record { width = read_uint32_be (drop 16 bytes); height = read_uint32_be (drop 20 bytes) })
