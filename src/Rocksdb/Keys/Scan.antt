-- ===== src/Rocksdb/Keys/Scan.antt =====
-- Which keys a scan by a tuple prefix of src/rocksdb/keys.js meets.
use pi_sliding_context_windo.Common.{
  ◌≡◌, ◌↔◌, refl, sym, ap, ◌∙◌, true, none, some, List, [], ◌∷◌, ◌++◌, ◌&&◌, append_assoc, arith,
  length, All, length-append, Option-cases, inl, inr,
}
use pi_sliding_context_windo.Common.Results.{ok, throw, ok_chain, ok_eq}
use pi_sliding_context_windo.Rocksdb.PostingLocator.{Bytes}
use pi_sliding_context_windo.Rocksdb.PostingLocator.Words.{IsByte}
use pi_sliding_context_windo.Rocksdb.Keys.{
  Field, encode_field, encode_fields, encode_key, decode_field, prefix_successor, prefix_bounds,
  key_format_version, no_upper_bound,
}
use pi_sliding_context_windo.Rocksdb.Keys.Order.{
  bytes_le, bytes_lt, starts_with, prefix_successor_lem,
}
use pi_sliding_context_windo.Rocksdb.Keys.RoundTrip.{
  encode_field-Decodes, encode_field-pos, encode_fields-cons, encode_key-fields,
}

starts_with-rest : (p k : Bytes) → starts_with p k ≡ true → (r : Bytes) × (k ≡ p ++ r)
starts_with-rest [] k h = (k, refl)
starts_with-rest (x ∷ p) [] h = absurd (cc)
starts_with-rest (x ∷ p) (y ∷ k) h =
    let (r, e) = starts_with-rest p k (ground arith) in let q : y ≡ x = ground arith in (r, cc)

starts_with-append : (p r : Bytes) → starts_with p (p ++ r) ≡ true
starts_with-append [] r = refl
starts_with-append (x ∷ p) r = ground (arith, starts_with-append p r)

-- Two encoded fields with something behind each that give the same bytes are the same field.
encode_field_injective :
    (f g : Field) (a b x y : Bytes)
    → encode_field f ≡ ok a
    → encode_field g ≡ ok b
    → a ++ x ≡ b ++ y
    → (f ≡ g) × (x ≡ y)
encode_field_injective f g a b x y p q e =
    let d = encode_field-Decodes f a x p in
    let d' = encode_field-Decodes g b y q in
    let s : d.tag ∷ d.body ≡ d'.tag ∷ d'.body = sym d.split ∙ e ∙ d'.split in
    let t : d.tag ≡ d'.tag = cc in
    let w : d.body ≡ d'.body = cc in
    let z : (f, x) ≡ (g, y) = ok_eq _ _ (
      sym d.decoded
      ∙ ap (λ k. decode_field k d.body) t
      ∙ ap (decode_field d'.tag) w
      ∙ d'.decoded) in
    (ap (λ k. k.0) z, ap (λ k. k.1) z)

encode_fields-nil : (b : Bytes) → encode_fields [] ≡ ok b → length b ≡ 0
unfolding encode_fields
encode_fields-nil b h = ap length (sym (ok_eq _ _ h))

encode_key-nil : (key : Bytes) → encode_key [] ≡ ok key → ⊥
unfolding encode_key
encode_key-nil key h = cc

-- If the bytes of a tuple begin with those of another, the tuple begins with the other.
encode_fields-prefix :
    (fs gs : List Field) (a b r : Bytes)
    → encode_fields fs ≡ ok a
    → encode_fields gs ≡ ok b
    → b ≡ a ++ r
    → (rest : List Field) × (gs ≡ fs ++ rest)
encode_fields-prefix [] gs a b r p q e = (gs, refl)
encode_fields-prefix (f ∷ fs) [] a b r p q e =
    let (fa, ra, i, j, k) = encode_fields-cons f fs a p in
    absurd (
      omega (
        arith,
        encode_fields-nil b q,
        encode_field-pos f fa i,
        ap length e,
        ap length k,
        length-append a r,
        length-append fa ra,
      ))
encode_fields-prefix (f ∷ fs) (g ∷ gs) a b r p q e =
    let (fa, ra, i, j, k) = encode_fields-cons f fs a p in
    let (gb, rb, i', j', k') = encode_fields-cons g gs b q in
    let s : fa ++ (ra ++ r) ≡ gb ++ rb =
      sym (append_assoc fa ra r) ∙ ap (λ z. z ++ r) (sym k) ∙ sym e ∙ k' in
    let (t, w) = encode_field_injective f g fa gb (ra ++ r) rb i i' s in
    let (rest, z) = encode_fields-prefix fs gs ra rb r j j' (sym w) in (rest, cc)

encode_fields-append :
    (fs rest : List Field) (a b : Bytes)
    → encode_fields fs ≡ ok a
    → encode_fields (fs ++ rest) ≡ ok b
    → (r : Bytes) × (b ≡ a ++ r)
unfolding encode_fields
encode_fields-append [] rest a b p q = (b, ap (λ z. z ++ b) (ok_eq _ _ p))
encode_fields-append (f ∷ fs) rest a b p q =
    let (fa, ra, i, j, k) = encode_fields-cons f fs a p in
    let (fb, rb, i', j', k') = encode_fields-cons f (fs ++ rest) b q in
    let (r, e) = encode_fields-append fs rest ra rb j j' in
    let s : fb ≡ fa = ok_eq _ _ (sym i' ∙ i) in
    (
      r,
      k'
          ∙ ap (λ z. z ++ rb) s
          ∙ ap (◌++◌ fa) e
          ∙ sym (append_assoc fa ra r)
          ∙ ap (λ z. z ++ r) (sym k),
    )

prefix_bounds-ok :
    (ps : List Field) (start end : Bytes)
    → prefix_bounds ps ≡ ok (start, end)
    → (encode_key ps ≡ ok start) × (prefix_successor start ≡ some end)
unfolding prefix_bounds
prefix_bounds-ok ps start end h =
    let (v, e, k) =
      ok_chain (encode_key ps)
        (λ start. elim (prefix_successor start) [
          | none ↦ throw no_upper_bound
          | some end ↦ ok (start, end)
        ])
        (start, end) h in
    elim (Option-cases (prefix_successor v)) [
      | inl z ↦ absurd (ground (arith, z))
      | inr (w, z) ↦
          let c : ◌≡◌ {A = Bytes × Bytes} (v, w) (start, end) = ok_eq _ _ (rw z at k) in
          (
            e ∙ ap ok (ap (λ t. t.0) c),
            sym (ap prefix_successor (ap (λ t. t.0) c)) ∙ z ∙ ap some (ap (λ t. t.1) c),
          )
    ]

-- Among the keys whose fields are bytes, a scan between the bounds of a tuple prefix meets exactly
-- those of the tuples that begin with the prefix.
pub prefix_bounds-scan :
    (ps qs : List Field) (start end key : Bytes)
    → prefix_bounds ps ≡ ok (start, end)
    → encode_key qs ≡ ok key
    → All IsByte key
    → ((bytes_le start key && bytes_lt key end) ≡ true) ↔ ((rest : List Field) × (qs ≡ ps ++ rest))
prefix_bounds-scan [] qs start end key h k b =
    absurd (encode_key-nil start (prefix_bounds-ok [] start end h).0)
prefix_bounds-scan (p ∷ ps) [] start end key h k b = absurd (encode_key-nil key k)
prefix_bounds-scan (p ∷ ps) (q ∷ qs) start end key h k b =
    let (e, s) = prefix_bounds-ok (p ∷ ps) start end h in
    let (x, i, j) = encode_key-fields p ps start e in
    let (y, i', j') = encode_key-fields q qs key k in
    let t : (bytes_le start key && bytes_lt key end) ≡ starts_with x y =
      prefix_successor_lem start key end b s
      ∙ ap (λ k. starts_with k key) j
      ∙ ap (starts_with (key_format_version ∷ x)) j' in
    (
      λ u.
          let (r, w) = starts_with-rest x y (sym t ∙ u) in
          encode_fields-prefix (p ∷ ps) (q ∷ qs) x y r i i' w,
      λ c.
          let (r, w) = encode_fields-append (p ∷ ps) c.0 x y i (ap encode_fields (sym c.1) ∙ i') in
          t ∙ ap (starts_with x) w ∙ starts_with-append x r,
    )
