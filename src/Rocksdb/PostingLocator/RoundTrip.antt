-- ===== src/Rocksdb/PostingLocator/RoundTrip.antt =====
-- Encoding and decoding of src/rocksdb/index/posting-locator.js are inverse to one another.
use pi_sliding_context_windo.Common.{
  ℕ, zero, suc, ◌≡◌, refl, sym, ap, ◌∙◌, ◌⊎◌, inl, inr, Bool, true, false, not, Option, none, some,
  List, [], ◌∷◌, ◌++◌, ◌&&◌, ◌||◌, arith, ltb, leb, ◌==◌, text_eq, text_eq_sound, length, take,
  drop, All, Option-cases, length-take, length-append, take-length-append, drop-length-append,
  take-append-drop,
}
use pi_sliding_context_windo.Rocksdb.PostingLocator.{
  Bytes, DecodeError, Result, ok, err, ◌>>=◌, require, magic, format_version, max_targets,
  max_target_key_bytes, is_locator_kind, write_u32, read_u32, is_target_key, all_target_keys,
  encode_targets, encode_posting_locator, header_bytes, decode_counted, decode_target,
  decode_targets, Locator, expects, decode_body, decode_posting_locator,
}
use pi_sliding_context_windo.Rocksdb.PostingLocator.Words.{IsByte, read-write, write-read}

-- A chain that returns a value passed its first step.
chain-eq-ok {u w} :
    {V : Type u} {W : Type w} (first : Result V) (next : V → Result W) {value : W}
    → (first >>= next) ≡ ok value
    → (v : V) × (first ≡ ok v) × (next v ≡ ok value)
chain-eq-ok (err e) next passed = absurd (cc)
chain-eq-ok (ok v) next passed = (v, refl, passed)

require-eq-ok : (b : Bool) (e : DecodeError) {u : Unit {0}} → require b e ≡ ok u → b ≡ true
require-eq-ok true e h = refl
require-eq-ok false e h = cc

decode_target-encode :
    (t rest : Bytes)
    → is_target_key t ≡ true
    → decode_target (write_u32 (length t) ++ (t ++ rest)) ≡ ok (t, rest)
unfolding decode_target
decode_target-encode t rest h =
    rw
      (
        read-write (length t) (t ++ rest),
        decode_target,
        take-length-append t rest,
        drop-length-append t rest,
      )
      (ground (arith, length-append t rest))

decode_targets-encode :
    (ts : List Bytes)
    → all_target_keys ts ≡ true
    → decode_targets (length ts) (encode_targets ts) ≡ ok ts
unfolding decode_targets encode_targets
decode_targets-encode [] h = refl
decode_targets-encode (t ∷ ts) h = rw (
  decode_target-encode t (encode_targets ts) (ground arith),
  decode_targets-encode ts (ground arith),
)

-- The checks that an encoded locator passed, and its bytes.
encode-inversion :
    (kind : ℕ) (ts : List Bytes) {bytes : Bytes}
    → encode_posting_locator kind ts ≡ ok bytes
    → (is_locator_kind kind ≡ true)
      × ((not (length ts == 0) && leb (length ts) max_targets) ≡ true)
      × (all_target_keys ts ≡ true)
      × (bytes ≡ magic ++ format_version ∷ kind ∷ (write_u32 (length ts) ++ encode_targets ts))
unfolding encode_posting_locator
encode-inversion kind ts h =
    let (_, k, h₁) = chain-eq-ok (require (is_locator_kind kind) _) _ h in
    let (_, n, h₂) =
      chain-eq-ok (require (not (length ts == 0) && leb (length ts) max_targets) _) _ h₁ in
    let (_, t, h₃) = chain-eq-ok (require (all_target_keys ts) _) _ h₂ in
    (
      require-eq-ok (is_locator_kind kind) _ k,
      require-eq-ok (not (length ts == 0) && leb (length ts) max_targets) _ n,
      require-eq-ok (all_target_keys ts) _ t,
      ground arith,
    )

expects-ok :
    (expected : Option ℕ) (kind : ℕ)
    → is_locator_kind kind ≡ true
    → (expected ≡ none) ⊎ (expected ≡ some kind)
    → expects expected kind ≡ ok tt
expects-ok expected kind k (inl e) = rw e
expects-ok expected kind k (inr e) = rw (e, expects, k) (ground arith)

body-encode :
    (kind : ℕ) (ts : List Bytes) (expected : Option ℕ)
    → is_locator_kind kind ≡ true
    → (not (length ts == 0 || ltb max_targets (length ts))) ≡ true
    → all_target_keys ts ≡ true
    → expects expected kind ≡ ok tt
    → decode_body expected (format_version ∷ kind ∷ (write_u32 (length ts) ++ encode_targets ts))
      ≡ ok (record { version = format_version; kind = kind; targets = ts })
unfolding decode_body decode_counted
body-encode kind ts expected k n t e =
    rw (k, e, read-write (length ts) (encode_targets ts), n, decode_targets-encode ts t)

-- What was encoded is decoded again, with the kind and the targets unchanged, whether the reader
-- names no kind or the same one.
pub decode-encode :
    (kind : ℕ) (ts : List Bytes) (bytes : Bytes) (expected : Option ℕ)
    → encode_posting_locator kind ts ≡ ok bytes
    → (expected ≡ none) ⊎ (expected ≡ some kind)
    → decode_posting_locator bytes expected
      ≡ ok (record { version = format_version; kind = kind; targets = ts })
unfolding decode_posting_locator write_u32
decode-encode kind ts bytes expected h e =
    let (k, n, t, b) = encode-inversion kind ts h in
    let l : not (ltb (length bytes) header_bytes) ≡ true = ground (arith, ap length b) in
    let w : text_eq (take 8 bytes) magic ≡ true = rw b in
    rw (l, w)
      (rw b (body-encode kind ts expected k (ground arith) t (expects-ok expected kind k e)))

split_at : (n : ℕ) (bytes : Bytes) → All IsByte bytes → All IsByte (drop n bytes)
split_at zero bytes h = h
split_at (suc n) [] h = tt
split_at (suc n) (b ∷ bytes) h = split_at n bytes h.1

decode_target-inversion :
    (bytes t rest : Bytes)
    → All IsByte bytes
    → decode_target bytes ≡ ok (t, rest)
    → (bytes ≡ write_u32 (length t) ++ (t ++ rest)) × (is_target_key t ≡ true) × All IsByte rest
unfolding decode_target
decode_target-inversion bytes t rest h e = elim (Option-cases (read_u32 bytes)) [
  | inl none_read ↦ absurd (ground arith)
  | inr ((n, r), word) ↦
      let (b, k) = write-read bytes n r h word in
      let c : (n == 0 || ltb max_target_key_bytes n || ltb (length r) n) ≡ false = ground arith in
      let p : t ≡ take n r = ground arith in
      let q : rest ≡ drop n r = ground arith in
      let l : length t ≡ n = ground (arith, length-take n r, ap length p) in
      (rw (l, p, q, take-append-drop n r) b, ground arith, rw q (split_at n r k))
]

decode_targets-inversion :
    (n : ℕ) (bytes : Bytes) (ts : List Bytes)
    → All IsByte bytes
    → decode_targets n bytes ≡ ok ts
    → (length ts ≡ n) × (bytes ≡ encode_targets ts) × (all_target_keys ts ≡ true)
unfolding decode_targets encode_targets
decode_targets-inversion zero [] ts h e = let q : ts ≡ [] = ground arith in rw q (refl, refl, refl)
decode_targets-inversion zero (b ∷ bytes) ts h e = absurd (ground arith)
decode_targets-inversion (suc n) bytes ts h e =
    let ((t, rest), d, e₁) = chain-eq-ok (decode_target bytes) _ e in
    let (us, r, e₂) = chain-eq-ok (decode_targets n rest) _ e₁ in
    let q : ts ≡ t ∷ us = ground arith in
    let (b, k, s) = decode_target-inversion bytes t rest h d in
    let (l, c, a) = decode_targets-inversion n rest us s r in
    rw q (omega arith, b ∙ ap (λ x. write_u32 (length t) ++ (t ++ x)) c, ground arith)

counted-inversion :
    (version kind count : ℕ) (bytes : Bytes) (l : Locator)
    → All IsByte bytes
    → decode_counted version kind count bytes ≡ ok l
    → (l.version ≡ version)
      × (l.kind ≡ kind)
      × ((not (length l.targets == 0) && leb (length l.targets) max_targets) ≡ true)
      × ((count ≡ length l.targets) × (bytes ≡ encode_targets l.targets))
      × (all_target_keys l.targets ≡ true)
unfolding decode_counted
counted-inversion version kind count bytes l h e =
    let (_, p, e₁) = chain-eq-ok (require (not (count == 0 || ltb max_targets count)) _) _ e in
    let p' = require-eq-ok (not (count == 0 || ltb max_targets count)) _ p in
    let (ts, r, e₂) = chain-eq-ok (decode_targets count bytes) _ e₁ in
    let q : l ≡ record { version = version; kind = kind; targets = ts } = ground arith in
    let (n, b, a) = decode_targets-inversion count bytes ts h r in
    rw q (refl, refl, ground arith, (sym n, b), a)

body-inversion :
    (expected : Option ℕ) (bytes : Bytes) (l : Locator)
    → All IsByte bytes
    → decode_body expected bytes ≡ ok l
    → (l.version ≡ format_version)
      × (is_locator_kind l.kind ≡ true)
      × ((not (length l.targets == 0) && leb (length l.targets) max_targets) ≡ true)
      × (all_target_keys l.targets ≡ true)
      × (bytes
          ≡ format_version ∷ l.kind ∷ (write_u32 (length l.targets) ++ encode_targets l.targets))
unfolding decode_body
body-inversion expected [] l h e = absurd (ground arith)
body-inversion expected (v ∷ []) l h e = absurd (ground arith)
body-inversion expected (v ∷ kind ∷ bytes) l h e =
    let (_, p, e₁) = chain-eq-ok (require (v == format_version) _) _ e in
    let (_, k, e₂) = chain-eq-ok (require (is_locator_kind kind) _) _ e₁ in
    let (_, x, e₃) = chain-eq-ok (expects expected kind) _ e₂ in
    let p' = require-eq-ok (v == format_version) _ p in
    let k' = require-eq-ok (is_locator_kind kind) _ k in
    elim (Option-cases (read_u32 bytes)) [
      | inl none_read ↦ absurd (ground arith)
      | inr ((count, rest), word) ↦
          let (b, s) = write-read bytes count rest h.1.1 word in
          let d : decode_counted v kind count rest ≡ ok l = ground arith in
          let (f, g, n, c, a) = counted-inversion v kind count rest l s d in
          let w : v ≡ format_version = ground arith in
          (f ∙ w, rw g k', n, a, rw (w, g, b, c.0, c.1))
    ]

-- Conversely a decoded byte string is the encoding of what it was decoded to: no locator has two
-- encodings.
pub encode-decode :
    (bytes : Bytes) (expected : Option ℕ) (l : Locator)
    → All IsByte bytes
    → decode_posting_locator bytes expected ≡ ok l
    → (l.version ≡ format_version) × (encode_posting_locator l.kind l.targets ≡ ok bytes)
unfolding decode_posting_locator encode_posting_locator
encode-decode bytes expected l h e =
    let (_, m, e₁) =
      chain-eq-ok
        (require (not (ltb (length bytes) header_bytes) && text_eq (take 8 bytes) magic) _) _ e in
    let m' =
      require-eq-ok (not (ltb (length bytes) header_bytes) && text_eq (take 8 bytes) magic) _ m in
    let w : take 8 bytes ≡ magic = text_eq_sound (take 8 bytes) magic (ground arith) in
    let (v, k, n, t, b) = body-inversion expected (drop 8 bytes) l (split_at 8 bytes h) e₁ in
    let c : magic ++ drop 8 bytes ≡ bytes = rw w at (take-append-drop 8 bytes) in
    (v, rw (k, n, t) (ap ok (ap (◌++◌ magic) (sym b) ∙ c)))
