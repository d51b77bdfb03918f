-- ===== src/Session/Contents.antt =====
-- src/session/window.js: `buildTocMarkerText`, the table of contents that a rotation leaves.
pub mod Newest
use pi_sliding_context_windo.Common.{
  ℕ, zero, suc, ◌+◌, Bool, true, false, ◌&&◌, Option, none, some, List, [], ◌∷◌, ◌++◌, Text, units,
  if◌then◌else◌, ltb, length, map,
}
use pi_sliding_context_windo.Session.Message.{estimate_text_tokens, newline}

-- An entry; an empty topic is falsy.
pub record Entry : Type 0 where
  pub id : Text
  pub topic : Text
  pub terms : List Text

abbrev pub join_with : Text → List Text → Text
join_with sep [] = []
join_with sep (t ∷ []) = t
join_with sep (t ∷ u ∷ ts) = t ++ (sep ++ join_with sep (u ∷ ts))

abbrev topic_text : Text → Text
topic_text [] = []
topic_text (c ∷ t) = units " \"" ++ ((c ∷ t) ++ units "\"")

abbrev terms_text : List Text → Text
terms_text [] = []
terms_text (t ∷ ts) = units " — " ++ join_with (units ", ") (t ∷ ts)

unfoldable pub entry_line : Entry → Text
entry_line e = units "- " ++ (e.id ++ (topic_text e.topic ++ terms_text e.terms))

-- `TOC_MARKER_HEADER`
unfoldable pub toc_marker_header : Text
toc_marker_header =
    units
      "[Context index — older turns were rotated out of the window. Each line is an archive id, the turn topic, and named referents from that turn. If a term below matches something you need, run context_window_search on it or context_recall on the id.]"

unfoldable pub render : List Entry → Text
render kept = join_with newline (toc_marker_header ∷ map entry_line kept)

-- The loop, which drops the oldest entry.
unfoldable pub drop_oldest : List Entry → ℕ → Text
drop_oldest [] budget = render []
drop_oldest (e ∷ []) budget = render (e ∷ [])
drop_oldest (e ∷ f ∷ es) budget =
    let rest = drop_oldest (f ∷ es) budget in
    if ltb budget (estimate_text_tokens (render (e ∷ f ∷ es))) then rest else render (e ∷ f ∷ es)

unfoldable pub build_toc_marker_text : List Entry → ℕ → Option Text
build_toc_marker_text [] budget = none
build_toc_marker_text (e ∷ es) budget = some (drop_oldest (e ∷ es) budget)
