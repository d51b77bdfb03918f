-- ===== src/Rocksdb/Keys/RoundTrip.antt =====
-- Encoding and decoding of src/rocksdb/keys.js.
use pi_sliding_context_windo.Common.{
  ℕ, suc, ◌/◌, ◌%◌, ◌<◌, ◌≡◌, refl, sym, ap, ◌∙◌, inl, inr, true, false, List, [], ◌∷◌, ◌++◌,
  append_assoc, arith, ltb, length, Bool-cases, length-append, take-length-append,
  drop-length-append,
}
use pi_sliding_context_windo.Common.Results.{ok, ◌>>=◌, throw_if, ok_chain, ok_eq}
use pi_sliding_context_windo.Rocksdb.PostingLocator.{Bytes, write_u32}
use pi_sliding_context_windo.Rocksdb.PostingLocator.Words.{read-write}
use pi_sliding_context_windo.Rocksdb.Keys.{
  Field, text, bytes, unsigned, boolean, null, max_u32, max_u64, length_prefix, integer_bytes,
  encode_field, encode_fields, encode_key, read_delimited, read_integer, decode_field,
  key_format_version, too_long, max_key_bytes,
}

read_delimited-write :
    (b rest : Bytes) → read_delimited (write_u32 (length b) ++ (b ++ rest)) ≡ ok (b, rest)
unfolding read_delimited
read_delimited-write b rest =
    rw
      (
        read-write (length b) (b ++ rest),
        read_delimited,
        take-length-append b rest,
        drop-length-append b rest,
      )
      (ground (arith, length-append b rest))

read_integer-write :
    (n : ℕ) (rest : Bytes)
    → read_integer (write_u32 (n / 4294967296) ++ (write_u32 (n % 4294967296) ++ rest))
      ≡ ok (n, rest)
unfolding read_integer
read_integer-write n rest =
    rw
      (
        read-write (n / 4294967296) (write_u32 (n % 4294967296) ++ rest),
        read_integer,
        read-write (n % 4294967296) rest,
      )
      (ap (λ (m : ℕ). ok (m, rest)) (omega arith))

-- An encoded field with anything behind it: its tag, and what the decoder makes of the rest.
pub record Decodes (f : Field) (b rest : Bytes) : Type 0 where
  pub tag : ℕ
  pub body : Bytes
  pub split : b ++ rest ≡ tag ∷ body
  pub decoded : decode_field tag body ≡ ok (f, rest)

-- A field behind its tag, encoded as `body`.
length_prefix-ok :
    (b out : Bytes) (tag : ℕ)
    → (length_prefix (length b) >>= λ p. ok (tag ∷ (p ++ b))) ≡ ok out
    → out ≡ tag ∷ (write_u32 (length b) ++ b)
unfolding length_prefix
length_prefix-ok b out tag h = elim (Bool-cases (ltb max_u32 (length b))) [
  | inl long ↦ absurd (ground (arith, long))
  | inr short ↦ ground (arith, short)
]

integer_bytes-ok :
    (n : ℕ) (out : Bytes)
    → (integer_bytes n >>= λ w. ok (0x12 ∷ w)) ≡ ok out
    → out ≡ 0x12 ∷ (write_u32 (n / 4294967296) ++ write_u32 (n % 4294967296))
unfolding integer_bytes
integer_bytes-ok n out h = elim (Bool-cases (ltb max_u64 n)) [
  | inl large ↦ absurd (ground (arith, large))
  | inr small ↦ ground (arith, small)
]

pub encode_field-Decodes : (f : Field) (b rest : Bytes) → encode_field f ≡ ok b → Decodes f b rest
unfolding encode_field decode_field
encode_field-Decodes (text s) b rest h = record {
  tag = 0x10;
  body = write_u32 (length s) ++ (s ++ rest);
  split =
      ap (λ x. x ++ rest) (length_prefix-ok s b 0x10 h)
      ∙ ap (◌∷◌ 0x10) (append_assoc (write_u32 (length s)) s rest);
  decoded = rw (read_delimited-write s rest) refl;
}
encode_field-Decodes (bytes s) b rest h = record {
  tag = 0x11;
  body = write_u32 (length s) ++ (s ++ rest);
  split =
      ap (λ x. x ++ rest) (length_prefix-ok s b 0x11 h)
      ∙ ap (◌∷◌ 0x11) (append_assoc (write_u32 (length s)) s rest);
  decoded = rw (read_delimited-write s rest) refl;
}
encode_field-Decodes (unsigned n) b rest h = record {
  tag = 0x12;
  body = write_u32 (n / 4294967296) ++ (write_u32 (n % 4294967296) ++ rest);
  split =
      ap (λ x. x ++ rest) (integer_bytes-ok n b h)
      ∙ ap (◌∷◌ 0x12) (append_assoc (write_u32 (n / 4294967296)) (write_u32 (n % 4294967296)) rest);
  decoded = rw (read_integer-write n rest) refl;
}
encode_field-Decodes (boolean false) b rest h = record {
  tag = 0x13;
  body = rest;
  split = ap (λ x. x ++ rest) (sym (ok_eq _ _ h));
  decoded = refl;
}
encode_field-Decodes (boolean true) b rest h = record {
  tag = 0x14;
  body = rest;
  split = ap (λ x. x ++ rest) (sym (ok_eq _ _ h));
  decoded = refl;
}
encode_field-Decodes null b rest h = record {
  tag = 0x15;
  body = rest;
  split = ap (λ x. x ++ rest) (sym (ok_eq _ _ h));
  decoded = refl;
}

-- The fields of a list one by one.
pub encode_fields-cons :
    (f : Field) (fs : List Field) (out : Bytes)
    → encode_fields (f ∷ fs) ≡ ok out
    → (b rest : Bytes) × (encode_field f ≡ ok b) × (encode_fields fs ≡ ok rest) × (out ≡ b ++ rest)
unfolding encode_fields
encode_fields-cons f fs out h =
    let (b, e, k) =
      ok_chain (encode_field f) (λ b. encode_fields fs >>= λ rest. ok (b ++ rest)) out h in
    let (rest, e', k') = ok_chain (encode_fields fs) (λ rest. ok (b ++ rest)) out k in
    (b, rest, e, e', sym (ok_eq _ _ k'))

-- An encoded field is not empty.
pub encode_field-pos : (f : Field) (b : Bytes) → encode_field f ≡ ok b → 0 < length b
encode_field-pos f b h =
    let d = encode_field-Decodes f b [] h in omega (arith, ap length d.split, length-append b [])

pub encode_key-fields :
    (f : Field) (fs : List Field) (key : Bytes)
    → encode_key (f ∷ fs) ≡ ok key
    → (out : Bytes) × (encode_fields (f ∷ fs) ≡ ok out) × (key ≡ key_format_version ∷ out)
unfolding encode_key
encode_key-fields f fs key h =
    let (out, e, k) =
      ok_chain (encode_fields (f ∷ fs))
        (λ out. throw_if (ltb max_key_bytes (suc (length out))) too_long >>= λ passed.
          ok (key_format_version ∷ out))
        key h in
    let (u, t, k') =
      ok_chain (throw_if (ltb max_key_bytes (suc (length out))) too_long)
        (λ passed. ok (key_format_version ∷ out)) key k in
    (out, e, sym (ok_eq _ _ k'))
