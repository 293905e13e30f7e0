-- ===== src/Base/Text.antt =====
-- Split and TrimSpace of Go's packages bytes and strings, on UTF-8 text.
use mathlib.Core.List.{reverse}
use Prim.Native.Nat.{ℕ, zero, suc}
use mathlib.Core.List.{List, [], ◌∷◌, map}
use mochi.Base.Lists.{length, drop}
use mochi.Base.Tests.{◌==◌, if◌then◌else◌}
use mochi.Base.Bytes.{Bytes, has_prefix}

-- the first field and the fields behind it
abbrev pub glue : ℕ → List Bytes → List Bytes
glue b [] = (b ∷ []) ∷ []
glue b (field ∷ fields) = (b ∷ field) ∷ fields

-- bytes.Split by one byte
unfoldable pub split : ℕ → Bytes → List Bytes
split sep [] = [] ∷ []
split sep (b ∷ bs) = let rest = split sep bs in if b == sep then [] ∷ rest else glue b rest

-- The characters of unicode.IsSpace, in UTF-8.
abbrev pub spaces : List Bytes
spaces =
    (0x09 ∷ [])
    ∷ (0x0a ∷ [])
    ∷ (0x0b ∷ [])
    ∷ (0x0c ∷ [])
    ∷ (0x0d ∷ [])
    ∷ (0x20 ∷ [])
    ∷ (0xc2 ∷ 0x85 ∷ [])
    ∷ (0xc2 ∷ 0xa0 ∷ [])
    ∷ (0xe1 ∷ 0x9a ∷ 0x80 ∷ [])
    ∷ (0xe2 ∷ 0x80 ∷ 0x80 ∷ [])
    ∷ (0xe2 ∷ 0x80 ∷ 0x81 ∷ [])
    ∷ (0xe2 ∷ 0x80 ∷ 0x82 ∷ [])
    ∷ (0xe2 ∷ 0x80 ∷ 0x83 ∷ [])
    ∷ (0xe2 ∷ 0x80 ∷ 0x84 ∷ [])
    ∷ (0xe2 ∷ 0x80 ∷ 0x85 ∷ [])
    ∷ (0xe2 ∷ 0x80 ∷ 0x86 ∷ [])
    ∷ (0xe2 ∷ 0x80 ∷ 0x87 ∷ [])
    ∷ (0xe2 ∷ 0x80 ∷ 0x88 ∷ [])
    ∷ (0xe2 ∷ 0x80 ∷ 0x89 ∷ [])
    ∷ (0xe2 ∷ 0x80 ∷ 0x8a ∷ [])
    ∷ (0xe2 ∷ 0x80 ∷ 0xa8 ∷ [])
    ∷ (0xe2 ∷ 0x80 ∷ 0xa9 ∷ [])
    ∷ (0xe2 ∷ 0x80 ∷ 0xaf ∷ [])
    ∷ (0xe2 ∷ 0x81 ∷ 0x9f ∷ [])
    ∷ (0xe3 ∷ 0x80 ∷ 0x80 ∷ [])
    ∷ []

-- the length of the first character of the list that the text begins with; 0 if there is none
unfoldable pub space_len : List Bytes → Bytes → ℕ
space_len [] bs = 0
space_len (s ∷ ss) bs = if has_prefix bs s then length s else space_len ss bs

-- On fuel: each round takes a byte at least.
unfoldable pub trim_left : ℕ → List Bytes → Bytes → Bytes
trim_left zero ss bs = bs
trim_left (suc fuel) ss bs =
    let rest = trim_left fuel ss (drop (space_len ss bs) bs) in
    if space_len ss bs == 0 then bs else rest

-- bytes.TrimSpace; the right end is the left end of the reversed text.
unfoldable pub trim_space : Bytes → Bytes
trim_space bs =
    let left = trim_left (length bs) spaces bs in
    reverse (trim_left (length left) (map reverse spaces) (reverse left))
