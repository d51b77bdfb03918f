-- ===== src/Session/Externalize.antt =====
-- src/session/window.js: `externalizeLargeToolResults`.
-- The archive is the parameter `store`: from its state it yields its next state and an id, or none.
-- The two shares of a preview, `Math.floor(n * 0.7)` and `Math.floor(n * 0.3)`, are floating point
-- products, so they are parameters too.
pub mod Preview
pub mod Forward
pub mod Accounting
pub mod Outcome
pub mod Bounded
use pi_sliding_context_windo.Common.{
  ℕ, zero, suc, ◌+◌, ◌-◌, ◌*◌, ◌/◌, ◌≤◌, min, max, Bool, true, false, Option, none, some, List, [],
  ◌∷◌, ◌++◌, Text, units, decimal, if◌then◌else◌, ltb, leb, ◌==◌, ◌||◌, length, take, drop,
}
use pi_sliding_context_windo.Session.Message.{
  Message, is_tool_result, content_to_text, replace_text_content, ceil_quarter,
}

-- How many of `n` preview characters go to the head and to the tail.
pub record Shares : Type 0 where
  pub head : ℕ → ℕ
  pub tail : ℕ → ℕ
  -- the rounded products never exceed the whole
  pub within : (n : ℕ) → head n + tail n ≤ n

pub record Options : Type 0 where
  pub max_tokens : ℕ
  pub preview_tokens : Option ℕ
  pub budget_tokens : Option ℕ
  pub floor_tokens : Option ℕ
  -- `none` is the default, -1
  pub floor_through_index : Option ℕ
  pub is_protected : ℕ → Bool

-- Both settings of the budget are given and positive.
abbrev pub has_budget : Options → Bool
has_budget o = elim o.budget_tokens [
  | none ↦ false
  | some b ↦ elim o.floor_tokens [
    | none ↦ false
    | some f ↦ elim b [ zero ↦ false | suc _ ↦ ltb 0 f ]
  ]
]

abbrev pub or_zero : Option ℕ → ℕ
or_zero none = 0
or_zero (some n) = n

abbrev pub max_chars : Options → ℕ
max_chars o = max 1 o.max_tokens * 4

abbrev pub preview_chars : Options → ℕ
preview_chars o = elim o.preview_tokens [
  | none ↦ max 1 (min 800 (o.max_tokens / 2)) * 4
  | some n ↦ max 1 n * 4
]

abbrev pub floor_chars : Options → ℕ
floor_chars o =
    if has_budget o then min (max_chars o) (max 1 (or_zero o.floor_tokens) * 4) else max_chars o

-- `admittedChars >= budgetChars`, where the budget is infinite if none is configured.
abbrev pub over_budget : Options → ℕ → Bool
over_budget o admitted =
    if has_budget o then leb (max 1 (or_zero o.budget_tokens) * 4) admitted else false

-- `messageIndex <= floorThroughIndex`
abbrev pub in_carry_over : Options → ℕ → Bool
in_carry_over o i = elim o.floor_through_index [ none ↦ false | some j ↦ leb i j ]

-- `effectiveMaxChars`
unfoldable pub gate : Options → ℕ → ℕ → ℕ
gate o i admitted =
    if in_carry_over o i || over_budget o admitted then floor_chars o else max_chars o

unfoldable pub marker : Text → ℕ → Text
unfolding decimal
marker id omitted =
    units "\n\n[… "
    ++ (decimal omitted
        ++ (units " characters archived as " ++ (id ++ units "; use context_recall …]\n\n")))

-- `text.slice(-n)` for a positive `n`, and "" for 0.
abbrev pub last : ℕ → Text → Text
last zero t = []
last (suc n) t = drop (length t - suc n) t

module _ (s : Shares) where
  unfoldable pub replacement : Text → Text → ℕ → Text
  replacement id text n =
      let head = take (s.head n) text in
      let tail = last (s.tail n) text in
      head ++ (marker id (length text - length head - length tail) ++ tail)

  -- The `while (true)` loop, from `n` preview characters on; `none` is the end of the fuel.
  unfoldable pub shrink : ℕ → Text → Text → ℕ → ℕ → Option Text
  shrink zero id text g n = none
  shrink (suc fuel) id text g n =
      let r = replacement id text n in
      let rest = shrink fuel id text g (n - max 1 (length r - g)) in
      if leb (length r) g || n == 0 then some r else rest

  -- What replaces a text under the gate `g`. Each round takes at least one character off the
  -- preview, so the fuel never ends.
  unfoldable pub preview : Options → Text → Text → ℕ → Text
  preview o id text g =
      let n = min (preview_chars o) g in
      elim (shrink (suc n) id text g n) [ none ↦ [] | some r ↦ r ]

-- The variables of one pass over the messages, the archive's state among them.
pub record Pass (S : Type 0) : Type 0 where
  pub archive : S
  pub admitted : ℕ
  pub changed : Bool
  pub archive_ids : List Text

module _ (sha256 : Text → Text) (s : Shares) {S : Type 0}
    (store : S → Message → Text → S × Option Text) (o : Options) where
  abbrev admit : Pass S → ℕ → Pass S
  admit p n = record p { admitted = p.admitted + n }

  -- The rest of the callback, from what `store` returned on; an empty id is falsy.
  unfoldable pub replace_archived : ℕ → Message → Text → Pass S → Option Text → Pass S × Message
  replace_archived i m text p none = (admit p (length text), m)
  replace_archived i m text p (some []) = (admit p (length text), m)
  replace_archived i m text p (some (c ∷ id)) =
      let r = preview s o (c ∷ id) text (gate o i p.admitted) in
      (
        record p {
          admitted = p.admitted + length r;
          changed = true;
          archive_ids = p.archive_ids ++ (c ∷ id) ∷ [];
        },
        record m { content = replace_text_content m.content r },
      )

  -- The callback of `messages.map`.
  unfoldable pub visit : ℕ → Message → Pass S → Pass S × Message
  visit i m p =
      let text = content_to_text sha256 m.content in
      let (a, id) = store p.archive m text in
      if is_tool_result m
      then if o.is_protected i || leb (length text) (gate o i p.admitted)
        then (admit p (length text), m)
        else replace_archived i m text (record p { archive = a }) id
      else (p, m)

  unfoldable pub visit_all : ℕ → List Message → Pass S → Pass S × List Message
  visit_all i [] p = (p, [])
  visit_all i (m ∷ ms) p =
      let (p', m') = visit i m p in let (q, out) = visit_all (suc i) ms p' in (q, m' ∷ out)

  -- The messages that the function returns: the given array, if nothing changed.
  unfoldable pub externalize_large_tool_results : S → List Message → Pass S × List Message
  externalize_large_tool_results a ms =
      let (p, out) =
        visit_all 0 ms (record { archive = a; admitted = 0; changed = false; archive_ids = [] }) in
      (p, if p.changed then out else ms)

-- `admittedTokens` of the result, and `measureToolResultTokens` of src/session/epoch-budget.js.
abbrev pub admitted_tokens : {S : Type 0} → Pass S → ℕ
admitted_tokens p = ceil_quarter p.admitted

module _ (sha256 : Text → Text) where
  unfoldable pub tool_result_chars : List Message → ℕ
  tool_result_chars [] = 0
  tool_result_chars (m ∷ ms) =
      (if is_tool_result m then length (content_to_text sha256 m.content) else 0)
      + tool_result_chars ms

  unfoldable pub measure_tool_result_tokens : List Message → ℕ
  unfolding tool_result_chars
  measure_tool_result_tokens ms = ceil_quarter (tool_result_chars ms)
