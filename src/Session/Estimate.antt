-- ===== src/Session/Estimate.antt =====
-- The character accounting of src/session/window.js against the text that it stands for.
use pi_sliding_context_windo.Common.{
  ℕ, suc, ◌+◌, ◌-◌, ◌*◌, ◌≤◌, ◌≡◌, refl, ◌≢◌, inl, inr, Option-cases, List, [], ◌∷◌, ◌++◌, ◌∙◌, map,
  arith, if◌then◌else◌, ◌==◌, Text, units, length, length-append, sum, All,
}
use pi_sliding_context_windo.Session.Message.{
  Message, Part, plain, object, scalar, Content, string, parts, absent, value, image, label,
  ceil_quarter, newline, join_nonempty, part_to_text, content_to_text, synthetic_serialization,
  serialize_message, serialize_messages, part_characters, sum_parts, estimated_content_characters,
  estimated_message_characters, estimate_tokens, estimate_text_tokens,
}

-- A part that is no image, and a message with no image part.
abbrev pub NoImage : Part → Type 0
NoImage (plain t) = Unit
NoImage (object p) = p.kind ≢ image
NoImage scalar = Unit

abbrev pub NoImages : Content → Type 0
NoImages (string t) = Unit
NoImages (parts ps) = All NoImage ps
NoImages absent = Unit
NoImages (value j) = Unit

-- The loop over the rendered texts instead of the parts.
sum_texts : ℕ → ℕ → List Text → ℕ
sum_texts c r [] = c + (r - 1)
sum_texts c r (t ∷ ts) = sum_texts (c + length t) (if length t == 0 then r else suc r) ts

module _ (sha256 : Text → Text) where
  part_characters-length :
      (p : Part) → NoImage p → part_characters sha256 p ≡ length (part_to_text sha256 p)
  unfolding part_characters part_to_text
  part_characters-length (plain t) h = refl
  part_characters-length (object p) h = ground arith
  part_characters-length scalar h = refl

  sum_parts-sum_texts :
      (c r : ℕ) (ps : List Part)
      → All NoImage ps
      → sum_parts sha256 c r ps ≡ sum_texts c r (map (part_to_text sha256) ps)
  unfolding sum_parts sum_texts
  sum_parts-sum_texts c r [] h = refl
  sum_parts-sum_texts c r (p ∷ ps) h = ground (
    arith,
    part_characters-length p h.0,
    sum_parts-sum_texts (c + length (part_to_text sha256 p))
        (if length (part_to_text sha256 p) == 0 then r else suc r) ps h.1,
  )

-- What a rendered text costs behind another one: its length and the separator.
after_length : Text → ℕ
after_length [] = 0
after_length (c ∷ t) = suc (suc (length t))

length-join :
    (c : ℕ) (t : Text) (ts : List Text)
    → length (join_nonempty newline ((c ∷ t) ∷ ts))
      ≡ suc (length t) + after_length (join_nonempty newline ts)
unfolding join_nonempty after_length
length-join c t ts = go (join_nonempty newline ts)
  where
    go :
        (r : Text)
        → length (elim r [ [] ↦ c ∷ t | d ∷ r' ↦ (c ∷ t) ++ (newline ++ d ∷ r') ])
          ≡ suc (length t) + after_length r
    go [] = omega arith
    go (d ∷ r) = omega (arith, length-append t (10 ∷ d ∷ r))

sum_texts-more :
    (c r : ℕ) (ts : List Text)
    → sum_texts c (suc r) ts ≡ c + r + after_length (join_nonempty newline ts)
unfolding sum_texts join_nonempty after_length
sum_texts-more c r [] = omega arith
sum_texts-more c r ([] ∷ ts) = sum_texts-more (c + 0) r ts ∙ omega arith
sum_texts-more c r ((x ∷ t) ∷ ts) =
    ground (arith, sum_texts-more (c + suc (length t)) (suc r) ts, length-join x t ts)

sum_texts-join : (c : ℕ) (ts : List Text) → sum_texts c 0 ts ≡ c + length (join_nonempty newline ts)
unfolding sum_texts join_nonempty
sum_texts-join c [] = omega arith
sum_texts-join c ([] ∷ ts) = sum_texts-join (c + 0) ts ∙ omega arith
sum_texts-join c ((x ∷ t) ∷ ts) =
    ground (arith, sum_texts-more (c + suc (length t)) 0 ts, length-join x t ts)

module _ (sha256 : Text → Text) where
  content-length :
      (c : Content)
      → NoImages c
      → estimated_content_characters sha256 c ≡ length (content_to_text sha256 c)
  unfolding estimated_content_characters content_to_text
  content-length (string t) h = refl
  content-length (parts ps) h =
      sum_parts-sum_texts sha256 0 0 ps h
      ∙ sum_texts-join 0 (map (part_to_text sha256) ps)
      ∙ omega arith
  content-length absent h = refl
  content-length (value j) h = refl

  -- For a message without images the characters that are charged are exactly the length of the
  -- message's serialization, which the estimator never builds.
  pub estimated_message_characters-length :
      (m : Message)
      → NoImages m.content
      → estimated_message_characters sha256 m ≡ length (serialize_message sha256 m)
  unfolding estimated_message_characters serialize_message
  estimated_message_characters-length m h = elim (Option-cases (synthetic_serialization m)) [
    | inl e ↦
        rw (e, estimated_message_characters, serialize_message)
          (omega (
            arith,
            content-length m.content h,
            length-append (units "[" ++ label m ++ units "] ") (content_to_text sha256 m.content),
            length-append (units "[" ++ label m) (units "] "),
          ))
    | inr (t, e) ↦ rw (e, estimated_message_characters, serialize_message)
  ]

  serialized_length :
      (ms : List Message)
      → All (λ m. NoImages m.content) ms
      → length (serialize_messages sha256 ms)
        ≡ sum (map (estimated_message_characters sha256) ms) + 2 * (length ms - 1)
  unfolding serialize_messages
  serialized_length [] h = omega arith
  serialized_length (m ∷ []) h = omega (arith, estimated_message_characters-length m h.0)
  serialized_length (m ∷ n ∷ ms) h = omega (
    arith,
    estimated_message_characters-length m h.0,
    serialized_length (n ∷ ms) h.1,
    length-append (serialize_message sha256 m) (10 ∷ 10 ∷ serialize_messages sha256 (n ∷ ms)),
  )

  -- The estimate of an array is at most the estimate of its joined text, and short of it by
  -- at most a quarter of the separators, rounded up.
  pub estimate_tokens-bounds :
      (ms : List Message)
      → All (λ m. NoImages m.content) ms
      → (estimate_tokens sha256 ms ≤ estimate_text_tokens (serialize_messages sha256 ms))
        × (estimate_text_tokens (serialize_messages sha256 ms)
            ≤ estimate_tokens sha256 ms + ceil_quarter (length ms - 1))
  unfolding estimate_tokens estimate_text_tokens
  estimate_tokens-bounds ms h = omega (arith, serialized_length ms h)
