-- ===== src/Rocksdb/Utf8.antt =====
-- The conversions between strings and UTF-8 bytes that src/rocksdb/chunks.js takes from Node:
-- `Buffer.from(text, "utf8")`, `bytes.toString("utf8")` and `text.isWellFormed()`.
-- A string stands as its code points, in which a surrogate stands only where it has no partner.
pub mod RoundTrip
use pi_sliding_context_windo.Common.{
  ℕ, ◌+◌, ◌-◌, ◌*◌, ◌/◌, ◌%◌, Bool, true, false, not, ◌&&◌, ◌||◌, List, [], ◌∷◌, ◌++◌, ◌≡◌, refl,
  if◌then◌else◌, ltb, leb, ◌==◌, arith,
}

abbrev pub is_scalar : ℕ → Bool
is_scalar c = ltb c 55296 || (ltb 57343 c && ltb c 1114112)

unfoldable pub is_well_formed : List ℕ → Bool
is_well_formed [] = true
is_well_formed (c ∷ cs) = is_scalar c && is_well_formed cs

-- The bytes of one scalar value.
unfoldable pub encode_scalar : ℕ → List ℕ
encode_scalar c =
    if ltb c 128
    then c ∷ []
    else if ltb c 2048
    then (192 + c / 64) ∷ (128 + c % 64) ∷ []
    else if ltb c 65536
    then (224 + c / 4096) ∷ (128 + c / 64 % 64) ∷ (128 + c % 64) ∷ []
    else (240 + c / 262144) ∷ (128 + c / 4096 % 64) ∷ (128 + c / 64 % 64) ∷ (128 + c % 64) ∷ []

unfoldable pub encode : List ℕ → List ℕ
encode [] = []
encode (c ∷ cs) = encode_scalar c ++ encode cs

-- The state of the decoder: between two characters, or within one that needs more bytes, of which
-- the next lies between two bounds.
pub data Pending : Type 0 where
  idle : Pending
  within : (needed value lower upper : ℕ) → Pending

abbrev pub replacement_character : ℕ
replacement_character = 65533

-- A byte between two characters: what it writes, and the state behind it.
unfoldable pub lead : ℕ → List ℕ × Pending
lead b =
    if ltb b 128
    then (b ∷ [], idle)
    else if ltb b 194
    then (replacement_character ∷ [], idle)
    else if ltb b 224
    then ([], within 1 (b - 192) 128 191)
    else if ltb b 240
    then ([], within 2 (b - 224) (if b == 224 then 160 else 128) (if b == 237 then 159 else 191))
    else if ltb b 245
    then ([], within 3 (b - 240) (if b == 240 then 144 else 128) (if b == 244 then 143 else 191))
    else (replacement_character ∷ [], idle)

abbrev pub more : ℕ → ℕ → List ℕ × Pending
more needed value =
    if needed == 1 then (value ∷ [], idle) else ([], within (needed - 1) value 128 191)

-- A byte out of bounds ends the character, for which U+FFFD is written, and leads anew.
abbrev pub broken : List ℕ × Pending → List ℕ × Pending
broken (out, next) = (replacement_character ∷ out, next)

unfoldable pub step : Pending → ℕ → List ℕ × Pending
unfolding lead
step idle b = lead b
step (within needed value lower upper) b =
    if leb lower b && leb b upper then more needed (value * 64 + (b - 128)) else broken (lead b)

abbrev pub flush : Pending → List ℕ
flush idle = []
flush (within needed value lower upper) = replacement_character ∷ []

unfoldable pub decode_from : Pending → List ℕ → List ℕ
unfolding step
decode_from p [] = flush p
decode_from p (b ∷ bs) = let (out, next) = step p b in out ++ decode_from next bs

unfoldable pub decode : List ℕ → List ℕ
unfolding decode_from
decode bs = decode_from idle bs
