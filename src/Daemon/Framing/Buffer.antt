-- ===== src/Daemon/Framing/Buffer.antt =====
-- The buffer of src/daemon/framing.js: blocks and slab hold the buffered bytes in order.
use pi_sliding_context_windo.Common.{
  ℕ, zero, suc, ◌+◌, ◌-◌, ◌≤◌, ◌<◌, ◌≡◌, ◌≢◌, refl, sym, ap, ◌∙◌, Option, none, some, List, [], ◌∷◌,
  ◌++◌, arith, ◌==◌, length, take, drop, concat, append_assoc, append-nil, Bool-cases, inl, inr,
  length-append, length-take, length-drop, take-append-drop,
}
use pi_sliding_context_windo.Daemon.Framing.{
  Bytes, Framer, written, block_size, reset, copied, copy_round, append_loop, materialize_from,
  materialize, copy_frame,
}

abbrev pub content : Framer → Bytes
content f = concat f.blocks ++ written f.tail

pub record IsValid (f : Framer) : Type 0 where
  pub positive : 0 < f.max_frame_bytes
  pub counted : f.buffered_bytes ≡ length (content f)
  pub room : length (written f.tail) < block_size f

pub reset-IsValid : {f : Framer} → IsValid f → IsValid (reset f)
unfolding reset
reset-IsValid v = record { positive = v.positive; counted = refl; room = omega (arith, v.positive) }

-- A frame is made of the buffered bytes and the segment, whichever buffer it reuses.
materialize_from-copy :
    (f : Framer) (blocks : List Bytes) (tail : Option Bytes) (segment : Bytes) (n : ℕ)
    → materialize_from f blocks tail segment n ≡ copy_frame blocks tail segment
unfolding materialize_from
materialize_from-copy f [] (some t) segment n = ground arith
materialize_from-copy f [] none segment n = refl
materialize_from-copy f (b ∷ []) none [] n = sym (append-nil (b ++ []) ∙ append-nil b)
materialize_from-copy f (b ∷ []) none (x ∷ segment) n = ground arith
materialize_from-copy f (b ∷ []) (some t) segment n = refl
materialize_from-copy f (b ∷ c ∷ blocks) none segment n = refl
materialize_from-copy f (b ∷ c ∷ blocks) (some t) segment n = refl

pub materialize-content :
    (f : Framer) (segment : Bytes) (n : ℕ) → materialize f segment n ≡ content f ++ segment
unfolding materialize
materialize-content f segment n =
    materialize_from-copy f f.blocks f.tail segment n
    ∙ sym (append_assoc (concat f.blocks) (written f.tail) segment)

concat-append : (xs ys : List Bytes) → concat (xs ++ ys) ≡ concat xs ++ concat ys
concat-append [] ys = refl
concat-append (x ∷ xs) ys = rw (concat-append xs ys) (sym (append_assoc x (concat xs) (concat ys)))

pub record Copies (f g : Framer) (bytes : Bytes) : Type 0 where
  pub valid : IsValid g
  pub limit : g.max_frame_bytes ≡ f.max_frame_bytes
  pub holds : content g ≡ content f ++ bytes

copied-pos : (f : Framer) (b : ℕ) (bytes : Bytes) → IsValid f → 0 < copied f (b ∷ bytes)
unfolding copied
copied-pos f b bytes v = omega (arith, v.room)

copied-le :
    (f : Framer) (bytes : Bytes)
    → (copied f bytes ≤ length bytes)
      × (length (written f.tail) + copied f bytes
          ≤ length (written f.tail) + (block_size f - length (written f.tail)))
unfolding copied
copied-le f bytes = (omega arith, omega arith)

slab_room :
    (f : Framer) (bytes : Bytes) (n : ℕ)
    → IsValid f
    → n ≡ length (written f.tail) + copied f bytes
    → n ≢ block_size f
    → n < block_size f
slab_room f bytes n v l ne = omega (arith, copied-le f bytes, v.room)

copy_round-Copies :
    (f : Framer) (bytes : Bytes)
    → IsValid f
    → Copies f (copy_round f bytes) (take (copied f bytes) bytes)
unfolding copy_round
copy_round-Copies f bytes v =
    let n = copied f bytes in
    let t = written f.tail ++ take n bytes in
    let l : length t ≡ length (written f.tail) + n = omega (
      arith,
      length-append (written f.tail) (take n bytes),
      length-take n bytes,
      copied-le f bytes,
    ) in
    let w : content f ++ take n bytes ≡ concat f.blocks ++ t =
      append_assoc (concat f.blocks) (written f.tail) (take n bytes) in
    let c : length (concat f.blocks ++ t) ≡ f.buffered_bytes + n = omega (
      arith,
      v.counted,
      length-append (concat f.blocks) t,
      length-append (concat f.blocks) (written f.tail),
    ) in
    elim (Bool-cases (length t == block_size f)) [
      | inl full ↦
          let b : concat (f.blocks ++ t ∷ []) ++ [] ≡ concat f.blocks ++ t =
            append-nil _
            ∙ concat-append f.blocks (t ∷ [])
            ∙ ap (◌++◌ (concat f.blocks)) (append-nil t) in
          rw (full, copy_round)
            (record {
              valid = record {
                positive = v.positive;
                counted = omega (arith, ap length b);
                room = omega (arith, v.positive);
              };
              limit = refl;
              holds = b ∙ sym w;
            })
      | inr open_slab ↦
          rw (open_slab, copy_round)
            (record {
              valid = record {
                positive = v.positive;
                counted = sym c;
                room = slab_room f bytes (length t) v l (ground arith);
              };
              limit = refl;
              holds = sym w;
            })
    ]

Copies-none : (f : Framer) → IsValid f → Copies f f []
Copies-none f v = record { valid = v; limit = refl; holds = sym (append-nil (content f)) }

pub append_loop-Copies :
    (fuel : ℕ) (f : Framer) (bytes : Bytes)
    → IsValid f
    → length bytes ≤ fuel
    → Copies f (append_loop fuel f bytes) bytes
unfolding append_loop
append_loop-Copies zero f [] v h = Copies-none f v
append_loop-Copies zero f (b ∷ bytes) v h = absurd (omega arith)
append_loop-Copies (suc fuel) f [] v h = Copies-none f v
append_loop-Copies (suc fuel) f (b ∷ bytes) v h =
    let n = copied f (b ∷ bytes) in
    let c = copy_round-Copies f (b ∷ bytes) v in
    let r =
      append_loop-Copies fuel (copy_round f (b ∷ bytes)) (drop n (b ∷ bytes)) c.valid
        (omega (arith, length-drop n (b ∷ bytes), copied-pos f b bytes v)) in
    record {
      valid = r.valid;
      limit = r.limit ∙ c.limit;
      holds =
          r.holds
          ∙ ap (λ x. x ++ drop n (b ∷ bytes)) c.holds
          ∙ append_assoc (content f) (take n (b ∷ bytes)) (drop n (b ∷ bytes))
          ∙ ap (◌++◌ (content f)) (take-append-drop n (b ∷ bytes));
    }
