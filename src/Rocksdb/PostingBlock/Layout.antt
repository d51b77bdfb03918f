-- ===== src/Rocksdb/PostingBlock/Layout.antt =====
-- src/rocksdb/index/posting-block.js: the arrays in which the two kinds of posting are written, and
-- the destructuring of them. Numbers are the parameter `N`.
use pi_sliding_context_windo.Common.{Option, none, some, List, [], ◌∷◌}
use pi_sliding_context_windo.Rocksdb.PostingLocator.{Bytes}
use pi_sliding_context_windo.Rocksdb.PostingBlock.Wire.{
  Values, number, string, array, nil, cons, texts, numbers, texts_of, numbers_of, nullable,
  nullable_of,
}

-- `posting.window`, whose `positionsEncoding` is always "delta-v1".
pub record Window (N : Type 0) : Type 0 where
  pub ordinal : N
  pub start_byte : N
  pub end_byte : N
  pub length_tokens : N
  pub weighted_length : N
  pub term_frequency : N
  pub weighted_term_frequency : N
  pub position_deltas : List N

pub record Bm25Posting (N : Type 0) : Type 0 where
  pub bm25_posting_version : N
  pub tokenizer_version : N
  pub generation : N
  pub document_version : N
  pub created_at : N
  pub bucket : N
  pub project : Bytes
  pub term : Bytes
  pub document_id : Bytes
  pub kind : Bytes
  pub session_id : Bytes
  pub source_message_keys : List Bytes
  pub turn_id : Option Bytes
  pub window : Window N

pub record Match (N : Type 0) : Type 0 where
  pub type_name : Bytes
  pub value : Bytes
  pub start_byte : N
  pub end_byte : N
  pub specificity : N

pub record ExactPosting (N : Type 0) : Type 0 where
  pub posting_version : N
  pub generation : N
  pub source_version : N
  pub bucket : N
  pub created_at : N
  pub document_version : N
  pub window_ordinal : N
  pub window_start_byte : N
  pub window_end_byte : N
  pub project : Bytes
  pub session_id : Bytes
  pub document_id : Bytes
  pub document_kind : Bytes
  pub source_key : Bytes
  pub source_key_status : Option Bytes
  pub source_message_keys : List Bytes
  pub turn_id : Option Bytes
  pub case_mode : Bytes
  pub normalized_term : Bytes
  pub matches : List (Match N)

-- The fields of a window, at the end of those of its posting.
unfoldable pub window_fields : {N : Type 0} → Window N → Values N
window_fields w = cons (number w.ordinal) (
    cons (number w.start_byte) (
      cons (number w.end_byte) (
        cons (number w.length_tokens) (
          cons (number w.weighted_length) (
            cons (number w.term_frequency) (
              cons (number w.weighted_term_frequency)
                (cons (array (numbers w.position_deltas)) (nil))))))))

unfoldable pub bm25_fields : {N : Type 0} → Bm25Posting N → Values N
bm25_fields p = cons (number p.bm25_posting_version) (
    cons (number p.tokenizer_version) (
      cons (number p.generation) (
        cons (number p.document_version) (
          cons (number p.created_at) (
            cons (number p.bucket) (
              cons (string p.project) (
                cons (string p.term) (
                  cons (string p.document_id) (
                    cons (string p.kind) (
                      cons (string p.session_id) (
                        cons (array (texts p.source_message_keys))
                          (cons (nullable p.turn_id) ((window_fields p.window))))))))))))))

unfoldable pub match_fields : {N : Type 0} → Match N → Values N
match_fields m = cons (string m.type_name) (
    cons (string m.value)
      (cons (number m.start_byte) (cons (number m.end_byte) (cons (number m.specificity) (nil)))))

abbrev pub match_values : {N : Type 0} → List (Match N) → Values N
match_values [] = nil
match_values (m ∷ ms) = cons (array (match_fields m)) (match_values ms)

unfoldable pub exact_fields : {N : Type 0} → ExactPosting N → Values N
exact_fields p = cons (number p.posting_version) (
    cons (number p.generation) (
      cons (number p.source_version) (
        cons (number p.bucket) (
          cons (number p.created_at) (
            cons (number p.document_version) (
              cons (number p.window_ordinal) (
                cons (number p.window_start_byte) (
                  cons (number p.window_end_byte) (
                    cons (string p.project) (
                      cons (string p.session_id) (
                        cons (string p.document_id) (
                          cons (string p.document_kind) (
                            cons (string p.source_key) (
                              cons (nullable p.source_key_status) (
                                cons (array (texts p.source_message_keys)) (
                                  cons (nullable p.turn_id) (
                                    cons (string p.case_mode) (
                                      cons (string p.normalized_term) (
                                        cons (array (match_values p.matches))
                                          (nil))))))))))))))))))))

-- The destructuring of the decoders; `none` is a field of another shape.
unfoldable pub window_of : {N : Type 0} → Values N → Option (Window N)
window_of
      (cons (number ordinal) (
        cons (number start_byte) (
          cons (number end_byte) (
            cons (number length_tokens) (
              cons (number weighted_length) (
                cons
                  (number term_frequency)
                  (cons (number weighted_term_frequency) (cons (array position_deltas) nil)))))))) =
    elim (numbers_of position_deltas) [
      | none ↦ none
      | some position_deltas_v ↦ some (record {
        ordinal = ordinal;
        start_byte = start_byte;
        end_byte = end_byte;
        length_tokens = length_tokens;
        weighted_length = weighted_length;
        term_frequency = term_frequency;
        weighted_term_frequency = weighted_term_frequency;
        position_deltas = position_deltas_v;
      })
    ]
window_of _ = none

unfoldable pub bm25_of : {N : Type 0} → Values N → Option (Bm25Posting N)
bm25_of
      (cons (number bm25_posting_version) (
        cons (number tokenizer_version) (
          cons (number generation) (
            cons (number document_version) (
              cons (number created_at) (
                cons (number bucket) (
                  cons (string project) (
                    cons (string term) (
                      cons (string document_id) (
                        cons (string kind) (
                          cons
                            (string session_id)
                            (cons (array source_message_keys) (cons turn_id rest))))))))))))) =
    elim (texts_of source_message_keys) [
      | none ↦ none
      | some source_message_keys_v ↦ elim (nullable_of turn_id) [
        | none ↦ none
        | some turn_id_v ↦ elim (window_of rest) [
          | none ↦ none
          | some w ↦ some (record {
            bm25_posting_version = bm25_posting_version;
            tokenizer_version = tokenizer_version;
            generation = generation;
            document_version = document_version;
            created_at = created_at;
            bucket = bucket;
            project = project;
            term = term;
            document_id = document_id;
            kind = kind;
            session_id = session_id;
            source_message_keys = source_message_keys_v;
            turn_id = turn_id_v;
            window = w;
          })
        ]
      ]
    ]
bm25_of _ = none

unfoldable pub match_of : {N : Type 0} → Values N → Option (Match N)
match_of
      (cons (string type_name) (
        cons
          (string value)
          (cons (number start_byte) (cons (number end_byte) (cons (number specificity) nil))))) =
    some (record {
      type_name = type_name;
      value = value;
      start_byte = start_byte;
      end_byte = end_byte;
      specificity = specificity;
    })
match_of _ = none

unfoldable pub matches_of : {N : Type 0} → Values N → Option (List (Match N))
matches_of nil = some []
matches_of (cons (array m) rest) = elim (match_of m) [
  | none ↦ none
  | some m_v ↦ elim (matches_of rest) [ none ↦ none | some ms ↦ some (m_v ∷ ms) ]
]
matches_of (cons _ rest) = none

unfoldable pub exact_of : {N : Type 0} → Values N → Option (ExactPosting N)
exact_of
      (cons (number posting_version) (
        cons (number generation) (
          cons (number source_version) (
            cons (number bucket) (
              cons (number created_at) (
                cons (number document_version) (
                  cons (number window_ordinal) (
                    cons (number window_start_byte) (
                      cons (number window_end_byte) (
                        cons (string project) (
                          cons (string session_id) (
                            cons (string document_id) (
                              cons (string document_kind) (
                                cons (string source_key) (
                                  cons source_key_status (
                                    cons (array source_message_keys) (
                                      cons turn_id (
                                        cons (string case_mode) (
                                          cons
                                            (string normalized_term)
                                            (cons (array matches) nil)))))))))))))))))))) =
    elim (nullable_of source_key_status) [
      | none ↦ none
      | some source_key_status_v ↦ elim (texts_of source_message_keys) [
        | none ↦ none
        | some source_message_keys_v ↦ elim (nullable_of turn_id) [
          | none ↦ none
          | some turn_id_v ↦ elim (matches_of matches) [
            | none ↦ none
            | some matches_v ↦ some (record {
              posting_version = posting_version;
              generation = generation;
              source_version = source_version;
              bucket = bucket;
              created_at = created_at;
              document_version = document_version;
              window_ordinal = window_ordinal;
              window_start_byte = window_start_byte;
              window_end_byte = window_end_byte;
              project = project;
              session_id = session_id;
              document_id = document_id;
              document_kind = document_kind;
              source_key = source_key;
              source_key_status = source_key_status_v;
              source_message_keys = source_message_keys_v;
              turn_id = turn_id_v;
              case_mode = case_mode;
              normalized_term = normalized_term;
              matches = matches_v;
            })
          ]
        ]
      ]
    ]
exact_of _ = none
