-- ===== src/Screenshot/Sizes.antt =====
-- The size that is read off a PNG is the one that it was given.
use godot_mcp.Base.{ℕ, ◌/◌, ◌%◌, ◌^◌, ◌<◌, ◌≡◌, some, List, ◌∷◌, arith}
use godot_mcp.Screenshot.{png_dimensions, read_uint32_be}

-- A number of 32 bits as its bytes, the highest first.
abbrev pub uint32_be : ℕ → List ℕ → List ℕ
uint32_be n bytes = n / 16777216 % 256 ∷ n / 65536 % 256 ∷ n / 256 % 256 ∷ n % 256 ∷ bytes

-- The head of a PNG: its signature, the length and type of its first chunk, and its size.
abbrev pub png_head : ℕ → ℕ → ℕ → List ℕ → List ℕ
png_head len w h bytes =
    uint32_be 0x89504e47 (
      uint32_be 0x0d0a1a0a (uint32_be len (uint32_be 0x49484452 (uint32_be w (uint32_be h bytes)))))

read-uint32_be : (n : ℕ) (bytes : List ℕ) → n < 2 ^ 32 → read_uint32_be (uint32_be n bytes) ≡ n
read-uint32_be n bytes h = omega arith

-- The size of an image that begins with a PNG's head is that of the head, for sizes of 32 bits and
-- whatever follows.
pub png_dimensions-png_head :
    (len w h : ℕ) (bytes : List ℕ)
    → w < 2 ^ 32
    → h < 2 ^ 32
    → png_dimensions (png_head len w h bytes) ≡ some (record { width = w; height = h })
unfolding png_dimensions
png_dimensions-png_head len w h bytes small low =
    ground (arith, read-uint32_be w (uint32_be h bytes) small, read-uint32_be h bytes low)
