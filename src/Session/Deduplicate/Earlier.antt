-- ===== src/Session/Deduplicate/Earlier.antt =====
-- A tool result that deduplicateToolResults of src/session/window.js replaces has an earlier twin.
use pi_sliding_context_windo.Common.{
  ℕ, zero, suc, ◌+◌, ◌≡◌, ◌<◌, refl, sym, ap, ◌∙◌, inl, inr, true, Option, none, some, List, [],
  ◌∷◌, Text, arith, Bool-cases, All, get_elem?, subst, text_eq, text_eq_sound,
}
use pi_sliding_context_windo.Session.Message.{
  Message, is_tool_result, content_to_text, replace_text_content,
}
use pi_sliding_context_windo.Session.Deduplicate.{
  Pass, get, start, result_key, duplicate_marker, replace_duplicate, visit_result, visit, visit_all,
  tool_call_arguments_index, deduplicate_tool_results,
}
use pi_sliding_context_windo.Session.Deduplicate.Append.{deduplicate-visit_all}

module _ (sha256 : Text → Text) {S : Type 0} (store : S → Message → Text → S × Option Text) where
  -- The history, the result, and the call arguments.
  module _ (whole result : List Message) (calls : List (Text × Text)) where
    -- Before index `i` stands a tool result with the key that was left as it is.
    pub record Twin (i : ℕ) (key : Text) : Type 0 where
      pub index : ℕ
      pub message : Message
      pub before : index < i
      pub given : get_elem? whole index ≡ some message
      pub unchanged : get_elem? result index ≡ some message
      pub is_result : is_tool_result message ≡ true
      pub same_key : result_key sha256 store calls message ≡ key

    later : (i : ℕ) (key : Text) → Twin i key → Twin (suc i) key
    later i key t = record {
      index = t.index;
      message = t.message;
      before = omega (arith, t.before);
      given = t.given;
      unchanged = t.unchanged;
      is_result = t.is_result;
      same_key = t.same_key;
    }

    abbrev Seen : ℕ → List (Text × Text) → Type 0
    Seen i = All (λ e. Twin i e.0)

    all_later : (i : ℕ) (seen : List (Text × Text)) → Seen i seen → Seen (suc i) seen
    all_later i [] h = tt
    all_later i (e ∷ seen) h = (later i e.0 h.0, all_later i seen h.1)

    get-Twin :
        (i : ℕ) (key : Text) (seen : List (Text × Text)) (ref : Text)
        → Seen i seen
        → get key seen ≡ some ref
        → Twin i key
    unfolding get
    get-Twin i key [] ref h e = absurd (ground arith)
    get-Twin i key (x ∷ seen) ref h e = elim (Bool-cases (text_eq x.0 key)) [
      | inl hit ↦ subst (Twin i) (text_eq_sound x.0 key hit) h.0
      | inr miss ↦ get-Twin i key seen ref h.1 (ground arith)
    ]

    -- The message is as it was, or it is a tool result with a twin and carries a marker.
    pub data Outcome (i : ℕ) (m m' : Message) : Type 0 where
      kept : m' ≡ m → Outcome i m m'
      marked :
          (ref id : Text)
          → is_tool_result m ≡ true
          → Twin i (result_key sha256 store calls m)
          → m' ≡ record m { content = replace_text_content m.content (duplicate_marker ref id) }
          → Outcome i m m'

    replace-Outcome :
        (i : ℕ) (m : Message) (earlier : Text) (p : Pass S) (id : Option Text)
        → is_tool_result m ≡ true
        → Twin i (result_key sha256 store calls m)
        → Outcome i m (replace_duplicate sha256 store i m earlier p id).1
    unfolding replace_duplicate
    replace-Outcome i m earlier p none t w = kept refl
    replace-Outcome i m earlier p (some []) t w = kept refl
    replace-Outcome i m earlier p (some (c ∷ id)) t w = marked earlier (c ∷ id) t w refl

    result-Outcome :
        (i : ℕ) (m : Message) (p : Pass S) (o : Option Text)
        → is_tool_result m ≡ true
        → Seen i p.seen
        → get (result_key sha256 store calls m) p.seen ≡ o
        → Outcome i m (visit_result sha256 store (result_key sha256 store calls m) i m p o).1
    unfolding visit_result
    result-Outcome i m p none t h e = kept refl
    result-Outcome i m p (some earlier) t h e =
        let (a, id) = store p.archive m (content_to_text sha256 m.content) in
        replace-Outcome i m earlier (record p { archive = a }) id t
          (get-Twin i (result_key sha256 store calls m) p.seen earlier h e)

    visit-Outcome :
        (i : ℕ) (m : Message) (p : Pass S)
        → Seen i p.seen
        → Outcome i m (visit sha256 store calls i m p).1
    unfolding visit
    visit-Outcome i m p h = elim (Bool-cases (is_tool_result m)) [
      | inl t ↦ rw (t, visit) (result-Outcome i m p _ t h refl)
      | inr f ↦ rw (f, visit) (kept refl)
    ]

    replace-seen :
        (i : ℕ) (m : Message) (earlier : Text) (p : Pass S) (id : Option Text)
        → (replace_duplicate sha256 store i m earlier p id).0.seen ≡ p.seen
    unfolding replace_duplicate
    replace-seen i m earlier p none = refl
    replace-seen i m earlier p (some []) = refl
    replace-seen i m earlier p (some (c ∷ id)) = refl

    result-Seen :
        (i : ℕ) (m : Message) (p : Pass S) (o : Option Text)
        → is_tool_result m ≡ true
        → Seen i p.seen
        → get_elem? whole i ≡ some m
        → get_elem? result i
          ≡ some (visit_result sha256 store (result_key sha256 store calls m) i m p o).1
        → Seen (suc i) (visit_result sha256 store (result_key sha256 store calls m) i m p o).0.seen
    unfolding visit_result
    result-Seen i m p none t h g r = (
      record {
        index = i;
        message = m;
        before = omega arith;
        given = g;
        unchanged = r;
        is_result = t;
        same_key = refl;
      },
      all_later i p.seen h,
    )
    result-Seen i m p (some earlier) t h g r =
        let (a, id) = store p.archive m (content_to_text sha256 m.content) in
        subst (Seen (suc i)) (sym (replace-seen i m earlier (record p { archive = a }) id))
          (all_later i p.seen h)

    visit-Seen :
        (i : ℕ) (m : Message) (p : Pass S)
        → Seen i p.seen
        → get_elem? whole i ≡ some m
        → get_elem? result i ≡ some (visit sha256 store calls i m p).1
        → Seen (suc i) (visit sha256 store calls i m p).0.seen
    unfolding visit
    visit-Seen i m p h g r = elim (Bool-cases (is_tool_result m)) [
      | inl t ↦ rw (t, visit) (result-Seen i m p _ t h g (rw (t, visit) at r))
      | inr f ↦ rw (f, visit) (all_later i p.seen h)
    ]

    -- The two lists from index `i` on.
    abbrev From : ℕ → List Message → List Message → Type 0
    From i ms out =
        ((k : ℕ) (m : Message) → get_elem? ms k ≡ some m → get_elem? whole (i + k) ≡ some m)
        × ((k : ℕ) (m : Message) → get_elem? out k ≡ some m → get_elem? result (i + k) ≡ some m)

    visit_all-Outcome :
        (i k : ℕ) (ms : List Message) (p : Pass S) (m : Message)
        → From i ms (visit_all sha256 store calls i ms p).1
        → Seen i p.seen
        → get_elem? ms k ≡ some m
        → (m' : Message) × (get_elem? (visit_all sha256 store calls i ms p).1 k ≡ some m')
          × Outcome (i + k) m m'
    unfolding visit_all
    visit_all-Outcome i k [] p m f h g = absurd (ground arith)
    visit_all-Outcome i zero (n ∷ ms) p m f h g =
        let q : n ≡ m = cc in
        let z : i ≡ i + 0 = omega arith in
        (
          (visit sha256 store calls i n p).1,
          refl,
          subst (λ j. Outcome j m (visit sha256 store calls i n p).1) z
              (subst (λ x. Outcome i x (visit sha256 store calls i n p).1) q
                (visit-Outcome i n p h)),
        )
    visit_all-Outcome i (suc k) (n ∷ ms) p m f h g =
        let (p', n') = visit sha256 store calls i n p in
        let z : i + 0 ≡ i = omega arith in
        let w : get_elem? whole i ≡ some n = ap (get_elem? whole) (sym z) ∙ f.0 0 n refl in
        let r : get_elem? result i ≡ some n' = ap (get_elem? result) (sym z) ∙ f.1 0 n' refl in
        let s : (j : ℕ) → suc i + j ≡ i + suc j = λ j. omega arith in
        let f' : From (suc i) ms (visit_all sha256 store calls (suc i) ms p').1 = (
          λ j x e. ap (get_elem? whole) (s j) ∙ f.0 (suc j) x e,
          λ j x e. ap (get_elem? result) (s j) ∙ f.1 (suc j) x e,
        ) in
        let (m', e, o) = visit_all-Outcome (suc i) k ms p' m f' (visit-Seen i n p h w r) g in
        (m', e, subst (λ j. Outcome j m m') (s k) o)

  -- Every message of the history has its counterpart at the same index, and it is the same unless
  -- it was a tool result and before it stands another with the same key (of name, arguments and
  -- digest), which was left as it is. Then only its text changed, to a marker.
  pub deduplicate-Outcome :
      (a : S) (ms : List Message) (k : ℕ) (m : Message)
      → get_elem? ms k ≡ some m
      → let out = (deduplicate_tool_results sha256 store a ms).1 in
        (m' : Message) × (get_elem? out k ≡ some m')
        × Outcome ms out (tool_call_arguments_index ms) k m m'
  deduplicate-Outcome a ms k m g =
      let calls = tool_call_arguments_index ms in
      let out = (visit_all sha256 store calls 0 ms (start a)).1 in
      let z : (j : ℕ) → j ≡ 0 + j = λ j. omega arith in
      let (m', e, o) =
        visit_all-Outcome ms out calls 0 k ms (start a) m
          (λ j x e. ap (get_elem? ms) (sym (z j)) ∙ e, λ j x e. ap (get_elem? out) (sym (z j)) ∙ e)
          tt g in
      let o' : Outcome ms out calls k m m' =
        subst (λ j. Outcome ms out calls j m m') (sym (z k)) o in
      subst (λ l. (m' : Message) × (get_elem? l k ≡ some m') × Outcome ms l calls k m m')
        (sym (deduplicate-visit_all sha256 store a ms)) (m', e, o')
