-- ===== src/Tests/ByteRuns.antt =====
-- Runs of src/daemon/framing.js and src/rocksdb/index/posting-locator.js.
use pi_sliding_context_windo.Common.{◌≡◌, refl, inr, some, [], ◌∷◌, ◌++◌, Text, units, arith, All}
use pi_sliding_context_windo.Daemon.Framing.{
  Framer, push, push_loop, cut_at_newline, keep_remainder, append, append_loop, copy_round, copied,
  reset, materialize, materialize_from, returns,
}
use pi_sliding_context_windo.Daemon.Framing.Buffer.{IsValid, content}
use pi_sliding_context_windo.Daemon.Framing.Lines.{lines_of}
use pi_sliding_context_windo.Daemon.Framing.Push.{Pushed, push-Pushed}
use pi_sliding_context_windo.Rocksdb.PostingLocator.{
  ok, write_u32, encode_targets, encode_posting_locator, decode_posting_locator, format_version,
}
use pi_sliding_context_windo.Rocksdb.PostingLocator.Words.{IsByte}
use pi_sliding_context_windo.Rocksdb.PostingLocator.RoundTrip.{decode-encode}

-- A framer for frames of at most eight bytes that holds "ab".
abbrev framer : Framer
framer = record { max_frame_bytes = 8; blocks = []; tail = some (units "ab"); buffered_bytes = 2 }

framer-IsValid : IsValid framer
framer-IsValid = record { positive = omega arith; counted = refl; room = omega arith }

push-Pushed_example :
    Pushed framer [] (lines_of (content framer) (units "c\nd")) (push framer (units "c\nd"))
push-Pushed_example = push-Pushed framer (units "c\nd") framer-IsValid (omega arith)

push_both :
    ((push framer (units "c\nd")).1 ≡ returns (units "abc" ∷ []))
    × ((push (push framer (units "c\nd")).0 (units "e\n")).1 ≡ returns (units "de" ∷ []))
unfolding push push_loop cut_at_newline keep_remainder append append_loop copy_round copied reset
    materialize materialize_from
push_both = (refl, refl)

abbrev locator_bytes : Text
locator_bytes = units "CWPOSTL1" ++ 1 ∷ 2 ∷ 0 ∷ 0 ∷ 0 ∷ 1 ∷ 0 ∷ 0 ∷ 0 ∷ 2 ∷ units "k1"

encoded : encode_posting_locator 2 (units "k1" ∷ []) ≡ ok locator_bytes
unfolding encode_posting_locator write_u32 encode_targets
encoded = refl

decode-encode_example :
    decode_posting_locator locator_bytes (some 2)
    ≡ ok (record { version = format_version; kind = 2; targets = units "k1" ∷ [] })
decode-encode_example = decode-encode 2 (units "k1" ∷ []) locator_bytes (some 2) encoded (inr refl)

locator_bytes-IsByte : All IsByte locator_bytes
locator_bytes-IsByte = (
  omega arith,
  (
    omega arith,
    (
      omega arith,
      (
        omega arith,
        (
          omega arith,
          (
            omega arith,
            (
              omega arith,
              (
                omega arith,
                (
                  omega arith,
                  (
                    omega arith,
                    (
                      omega arith,
                      (
                        omega arith,
                        (
                          omega arith,
                          (
                            omega arith,
                            (
                              omega arith,
                              (
                                omega arith,
                                (omega arith, (omega arith, (omega arith, (omega arith, tt)))),
                              ),
                            ),
                          ),
                        ),
                      ),
                    ),
                  ),
                ),
              ),
            ),
          ),
        ),
      ),
    ),
  ),
)
