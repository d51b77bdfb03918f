-- ===== src/Session/Rotation/Choice.antt =====
-- What a plan of src/session/window.js promises about the suffix that it keeps.
use pi_sliding_context_windo.Common.{
  ℕ, zero, suc, ◌+◌, ◌-◌, ◌≤◌, ◌<◌, ◌≡◌, refl, sym, ap, subst, ◌∙◌, ◌↔◌, inl, inr, Option, none,
  some, List, [], ◌∷◌, Text, arith, ltb, ltb→lt, length, drop, get_elem?, count_if, Bool-cases,
  Option-cases,
}
use pi_sliding_context_windo.Session.Message.{Message, is_user, estimate_tokens}
use pi_sliding_context_windo.Session.Turns.{Turn, complete_user_turns}
use pi_sliding_context_windo.Session.Turns.Retained.{
  StartsWithUser, user_turn-suffix, length-complete_user_turns,
}
use pi_sliding_context_windo.Session.Rotation.{
  Trigger, rotation_trigger, Options, Candidate, normal, Rotation, rotate, retain_limit,
  marker_reserve, token_target, over_hard_limit, load, candidate_at, choose, plan_turns,
  plan_epoch_rotation,
}

module _ (sha256 : Text → Text) (ms : List Message) (o : Options) where
  -- A turn that the policy may keep `retained` turns from, and one that also fits.
  abbrev pub cost : Turn → ℕ
  cost t = estimate_tokens sha256 (drop t.start ms) + marker_reserve o

  -- Every turn of the list that the retention limit admits, up to index `k`, is too large.
  abbrev pub TooLarge : List Turn → ℕ → Type 0
  TooLarge ts k =
      (j : ℕ) (t : Turn)
      → get_elem? ts j ≡ some t
      → j < k
      → length ts - j ≤ retain_limit o
      → token_target o < cost t

  pub TooLarge-cons :
      (t : Turn) (ts : List Turn) (k : ℕ)
      → (suc (length ts) ≤ retain_limit o → token_target o < cost t)
      → TooLarge ts k
      → TooLarge (t ∷ ts) (suc k)
  TooLarge-cons t ts k h rest zero u e l w =
      let q : t ≡ u = cc in subst (λ v. token_target o < cost v) q (h (omega arith))
  TooLarge-cons t ts k h rest (suc j) u e l w = rest j u e (omega arith) (omega arith)

  record Chosen (ts : List Turn) (r : Rotation) : Type 0 where
    index : ℕ
    turn : Turn
    at : get_elem? ts index ≡ some turn
    candidate : r.candidate ≡ candidate_at sha256 ms o turn (length ts - index)
    inside : index < length ts
    retained : length ts - index ≤ retain_limit o
    fits : cost turn ≤ token_target o
    normal_iff : (r.mode ≡ normal) ↔ (length ts - index ≡ retain_limit o)
    best : TooLarge ts index

  Chosen-skip :
      (t : Turn) (ts : List Turn) (r : Rotation)
      → (suc (length ts) ≤ retain_limit o → token_target o < cost t)
      → Chosen ts r
      → Chosen (t ∷ ts) r
  Chosen-skip t ts r h c = record {
    index = suc c.index;
    turn = c.turn;
    at = c.at;
    candidate = c.candidate ∙ ap (candidate_at sha256 ms o c.turn) (omega arith);
    inside = omega arith;
    retained = omega arith;
    fits = c.fits;
    normal_iff = (λ e. omega (arith, c.normal_iff.0 e), λ e. c.normal_iff.1 (omega arith));
    best = TooLarge-cons t ts c.index h c.best;
  }

  choose-Chosen :
      (trigger : Trigger) (ts : List Turn) (newest : Option Candidate) (r : Rotation)
      → choose sha256 ms o trigger ts newest ≡ rotate r
      → Chosen ts r
  unfolding choose
  choose-Chosen trigger [] newest r e = cc
  choose-Chosen trigger (t ∷ ts) newest r e =
      elim (Bool-cases (ltb (retain_limit o) (suc (length ts)))) [
        | inl over ↦
            Chosen-skip t ts r (λ l. absurd (omega (arith, ltb→lt _ _ over)))
              (choose-Chosen trigger ts newest r (ground arith))
        | inr within ↦ elim (Bool-cases (ltb (token_target o) (cost t))) [
          | inl large ↦
              Chosen-skip t ts r (λ _. ltb→lt _ _ large)
                (choose-Chosen trigger ts (some (candidate_at sha256 ms o t (suc (length ts)))) r
                  (ground arith))
          | inr small ↦ record {
            index = 0;
            turn = t;
            at = refl;
            candidate = ground arith;
            inside = omega arith;
            retained = ground arith;
            fits = ground arith;
            normal_iff = ground arith;
            best = λ j u _ l _. absurd (omega arith);
          }
        ]
      ]

  -- The turns behind the first one are the ones that the loop sees.
  plan_turns-Chosen :
      (trigger : Trigger) (ts : List Turn) (r : Rotation)
      → plan_turns sha256 ms o trigger ts ≡ rotate r
      → (t : Turn) × (us : List Turn) × (ts ≡ t ∷ us) × Chosen us r
  unfolding plan_turns
  plan_turns-Chosen trigger [] r e = cc
  plan_turns-Chosen trigger (t ∷ []) r e = cc
  plan_turns-Chosen trigger (t ∷ u ∷ ts) r e =
      (t, u ∷ ts, refl, choose-Chosen trigger (u ∷ ts) none r e)

  plan-Chosen :
      (r : Rotation)
      → plan_epoch_rotation sha256 ms o ≡ rotate r
      → (t : Turn) × (us : List Turn) × (complete_user_turns ms ≡ t ∷ us) × Chosen us r
  unfolding plan_epoch_rotation
  plan-Chosen r e = elim (Option-cases (rotation_trigger (load sha256 ms o))) [
    | inl below ↦ absurd (ground arith)
    | inr (trigger, fired) ↦
        elim (Option-cases (over_hard_limit o.observed_context_tokens o.hard_limit_tokens)) [
          | inl free ↦ plan_turns-Chosen trigger (complete_user_turns ms) r (ground arith)
          | inr (observed, full) ↦ absurd (ground arith)
        ]
  ]

  turn_of :
      {us : List Turn} {r : Rotation} {v : Turn} (c : Chosen us r)
      → get_elem? us c.index ≡ some v
      → c.turn ≡ v
  turn_of c g = cc (c.at)

  -- Among the turns behind the first, what is too large by its index there is so by its index.
  pub TooLarge-tail :
      (t : Turn) (us : List Turn) (k : ℕ)
      → complete_user_turns ms ≡ t ∷ us
      → TooLarge us k
      → (j : ℕ) (v : Turn) → get_elem? (complete_user_turns ms) j ≡ some v
      → 0 < j
      → count_if is_user ms - j ≤ retain_limit o
      → j < suc k
      → token_target o < cost v
  TooLarge-tail t us k s h zero v g pos w l = absurd (omega arith)
  TooLarge-tail t us k s h (suc j) v g pos w l =
      h j v (ap (λ ts. get_elem? ts (suc j)) (sym s) ∙ g) (omega arith)
        (omega (arith, length-complete_user_turns ms, ap length s))

  -- A rotation keeps a proper suffix of the history that starts with a user message, holds the
  -- reported number of user messages, which is positive and within the retention limit, and fits
  -- the token target together with the reserve. Its mode is normal exactly when the limit is met.
  pub rotate-fits :
      (r : Rotation)
      → plan_epoch_rotation sha256 ms o ≡ rotate r
      → StartsWithUser (drop r.candidate.start ms)
        × (count_if is_user (drop r.candidate.start ms) ≡ r.candidate.retained_turns)
        × (0 < r.candidate.retained_turns)
        × (r.candidate.retained_turns < count_if is_user ms)
        × (r.candidate.retained_turns ≤ retain_limit o)
        × (r.candidate.estimated_tokens
            ≡ estimate_tokens sha256 (drop r.candidate.start ms) + marker_reserve o)
        × (r.candidate.estimated_tokens ≤ token_target o)
        × ((r.mode ≡ normal) ↔ (r.candidate.retained_turns ≡ retain_limit o))
  rotate-fits r e =
      let (t, us, s, c) = plan-Chosen r e in
      let n : count_if is_user ms ≡ suc (length us) =
        sym (length-complete_user_turns ms) ∙ ap length s in
      let i = c.inside in
      let (v, g, u, k) = user_turn-suffix ms (suc c.index) (omega arith) in
      let g' : get_elem? us c.index ≡ some v = ap (λ ts. get_elem? ts (suc c.index)) (sym s) ∙ g in
      let q : c.turn ≡ v = turn_of c g' in
      let p : r.candidate.start ≡ v.start = ap (λ d. d.start) c.candidate ∙ ap (λ x. x.start) q in
      let m : r.candidate.retained_turns ≡ length us - c.index =
        ap (λ d. d.retained_turns) c.candidate in
      let b : r.candidate.estimated_tokens ≡ cost c.turn =
        ap (λ d. d.estimated_tokens) c.candidate in
      let d : drop r.candidate.start ms ≡ drop v.start ms = ap (λ x. drop x ms) p in
      let z : cost c.turn ≡ estimate_tokens sha256 (drop r.candidate.start ms) + marker_reserve o =
        ap cost q ∙ ap (λ x. estimate_tokens sha256 x + marker_reserve o) (sym d) in
      let h = c.retained in
      let f = c.fits in
      (
        rw d u,
        omega (arith, ap (count_if is_user) d),
        omega arith,
        omega arith,
        omega arith,
        b ∙ z,
        omega arith,
        (λ y. m ∙ c.normal_iff.0 y, λ y. c.normal_iff.1 (sym m ∙ y)),
      )

  -- A rotation keeps the largest such suffix: every longer one that starts at a complete turn
  -- but the first and is within the retention limit exceeds the target.
  pub rotate-largest :
      (r : Rotation)
      → plan_epoch_rotation sha256 ms o ≡ rotate r
      → (j : ℕ) (t : Turn) → get_elem? (complete_user_turns ms) j ≡ some t
      → 0 < j
      → count_if is_user ms - j ≤ retain_limit o
      → r.candidate.retained_turns < count_if is_user ms - j
      → token_target o < cost t
  rotate-largest r e j t g pos within longer =
      let (u, us, s, c) = plan-Chosen r e in
      let m : r.candidate.retained_turns ≡ length us - c.index =
        ap (λ d. d.retained_turns) c.candidate in
      let i = c.inside in
      TooLarge-tail u us c.index s c.best j t g pos within
        (omega (arith, length-complete_user_turns ms, ap length s))
