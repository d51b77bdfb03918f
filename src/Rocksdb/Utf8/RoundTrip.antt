-- ===== src/Rocksdb/Utf8/RoundTrip.antt =====
-- Well-formed strings survive their UTF-8 bytes.
use pi_sliding_context_windo.Common.{
  ℕ, ◌+◌, ◌-◌, ◌*◌, ◌/◌, ◌%◌, ◌≤◌, ◌<◌, true, false, ◌&&◌, List, [], ◌∷◌, ◌++◌, ◌≡◌, refl, sym, ap,
  ◌∙◌, if◌then◌else◌, ltb, leb, ◌==◌, arith, Bool-cases, inl, inr,
}
use pi_sliding_context_windo.Rocksdb.Utf8.{
  is_scalar, is_well_formed, encode_scalar, encode, Pending, idle, within, lead, more, step,
  decode_from, decode,
}

more-step :
    (needed value lower upper b : ℕ) (bs : List ℕ)
    → lower ≤ b
    → b ≤ upper
    → decode_from (within needed value lower upper) (b ∷ bs)
      ≡ (let (out, next) = more needed (value * 64 + (b - 128)) in out ++ decode_from next bs)
unfolding decode_from step
more-step needed value lower upper b bs l u =
    let e : (leb lower b && leb b upper) ≡ true = ground (arith, l, u) in rw e refl

lead_one : (b : ℕ) → b < 128 → lead b ≡ (b ∷ [], idle)
unfolding lead
lead_one b l = ground (arith, l)

lead_two : (b : ℕ) → 194 ≤ b → b < 224 → lead b ≡ ([], within 1 (b - 192) 128 191)
unfolding lead
lead_two b l u = ground (arith, l, u)

lead_three :
    (b : ℕ)
    → 224 ≤ b
    → b < 240
    → lead b
      ≡ ([], within 2 (b - 224) (if b == 224 then 160 else 128) (if b == 237 then 159 else 191))
unfolding lead
lead_three b l u = ground (arith, l, u)

lead_four :
    (b : ℕ)
    → 240 ≤ b
    → b < 245
    → lead b
      ≡ ([], within 3 (b - 240) (if b == 240 then 144 else 128) (if b == 244 then 143 else 191))
unfolding lead
lead_four b l u = ground (arith, l, u)

lead-step :
    (b : ℕ) (bs out : List ℕ) (next : Pending)
    → lead b ≡ (out, next)
    → decode_from idle (b ∷ bs) ≡ out ++ decode_from next bs
unfolding decode_from step
lead-step b bs out next e = rw e refl

-- A byte that completes a character, and one that does not.
last-step :
    (value lower upper b c : ℕ) (bs : List ℕ)
    → lower ≤ b
    → b ≤ upper
    → value * 64 + (b - 128) ≡ c
    → decode_from (within 1 value lower upper) (b ∷ bs) ≡ c ∷ decode_from idle bs
last-step value lower upper b c bs l u e =
    more-step 1 value lower upper b bs l u ∙ ap (λ x. x ∷ decode_from idle bs) e

inner-step :
    (needed value lower upper b c : ℕ) (bs : List ℕ)
    → lower ≤ b
    → b ≤ upper
    → value * 64 + (b - 128) ≡ c
    → decode_from (within (needed + 2) value lower upper) (b ∷ bs)
      ≡ decode_from (within (needed + 1) c 128 191) bs
inner-step needed value lower upper b c bs l u e =
    let n : (needed + 2 == 1) ≡ false = ground arith in
    let m : needed + 2 - 1 ≡ needed + 1 = omega arith in
    more-step (needed + 2) value lower upper b bs l u
    ∙ rw (n, m) (ap (λ x. decode_from (within (needed + 1) x 128 191) bs) e)

decode-two :
    (c : ℕ) (bs : List ℕ)
    → 128 ≤ c
    → c < 2048
    → decode_from idle ((192 + c / 64) ∷ (128 + c % 64) ∷ bs) ≡ c ∷ decode_from idle bs
decode-two c bs l u =
    lead-step _ _ _ _ (lead_two (192 + c / 64) (omega (arith, l)) (omega (arith, u)))
    ∙ last-step (192 + c / 64 - 192) 128 191 (128 + c % 64) c bs (omega arith) (omega arith)
        (omega arith)

decode-three :
    (c : ℕ) (bs : List ℕ)
    → 2048 ≤ c
    → c < 65536
    → is_scalar c ≡ true
    → decode_from idle ((224 + c / 4096) ∷ (128 + c / 64 % 64) ∷ (128 + c % 64) ∷ bs)
      ≡ c ∷ decode_from idle bs
decode-three c bs l u s =
    let b = 224 + c / 4096 in
    lead-step _ _ _ _ (lead_three b (omega (arith, l)) (omega (arith, u)))
    ∙ inner-step 0 (b - 224) (if b == 224 then 160 else 128) (if b == 237 then 159 else 191)
        (128 + c / 64 % 64) (c / 64) ((128 + c % 64) ∷ bs) (ground (arith, l, u))
        (ground (arith, u, s)) (omega arith)
    ∙ last-step (c / 64) 128 191 (128 + c % 64) c bs (omega arith) (omega arith) (omega arith)

decode-four :
    (c : ℕ) (bs : List ℕ)
    → 65536 ≤ c
    → c < 1114112
    → decode_from idle
        ((240 + c / 262144) ∷ (128 + c / 4096 % 64) ∷ (128 + c / 64 % 64) ∷ (128 + c % 64) ∷ bs)
      ≡ c ∷ decode_from idle bs
decode-four c bs l u =
    let b = 240 + c / 262144 in
    lead-step _ _ _ _ (lead_four b (omega (arith, l)) (omega (arith, u)))
    ∙ inner-step 1 (b - 240) (if b == 240 then 144 else 128) (if b == 244 then 143 else 191)
        (128 + c / 4096 % 64) (c / 4096) ((128 + c / 64 % 64) ∷ (128 + c % 64) ∷ bs)
        (ground (arith, l, u)) (ground (arith, u)) (omega arith)
    ∙ inner-step 0 (c / 4096) 128 191 (128 + c / 64 % 64) (c / 64) ((128 + c % 64) ∷ bs)
        (omega arith) (omega arith) (omega arith)
    ∙ last-step (c / 64) 128 191 (128 + c % 64) c bs (omega arith) (omega arith) (omega arith)

decode-encode_scalar :
    (c : ℕ) (bs : List ℕ)
    → is_scalar c ≡ true
    → decode_from idle (encode_scalar c ++ bs) ≡ c ∷ decode_from idle bs
unfolding encode_scalar
decode-encode_scalar c bs s = elim (Bool-cases (ltb c 128)) [
  | inl a ↦ rw a (lead-step c bs (c ∷ []) idle (lead_one c (ground (arith, a))))
  | inr a ↦ elim (Bool-cases (ltb c 2048)) [
    | inl b ↦ rw (a, b) (decode-two c bs (ground (arith, a)) (ground (arith, b)))
    | inr b ↦ elim (Bool-cases (ltb c 65536)) [
      | inl d ↦ rw (a, b, d) (decode-three c bs (ground (arith, b)) (ground (arith, d)) s)
      | inr d ↦ rw (a, b, d) (decode-four c bs (ground (arith, d)) (ground (arith, s, d)))
    ]
  ]
]

pub decode-nil : decode [] ≡ []
unfolding decode decode_from
decode-nil = refl

-- Decoding returns the well-formed string that was encoded.
pub decode-encode : (t : List ℕ) → is_well_formed t ≡ true → decode (encode t) ≡ t
unfolding is_well_formed encode decode_from decode
decode-encode [] w = refl
decode-encode (c ∷ t) w =
    decode-encode_scalar c (encode t) (ground (arith, w))
    ∙ ap (◌∷◌ c) (decode-encode t (ground (arith, w)))

pub encode-injective :
    (s t : List ℕ) → is_well_formed s ≡ true → is_well_formed t ≡ true → encode s ≡ encode t → s ≡ t
encode-injective s t v w e = sym (decode-encode s v) ∙ ap decode e ∙ decode-encode t w
