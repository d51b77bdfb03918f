-- ===== src/Rocksdb/Outbox/History.antt =====
-- What holds of every run of the outbox, in any interleaving of its workers.
use pi_sliding_context_windo.Common.{
  ℕ, zero, suc, ◌+◌, ◌≡◌, refl, sym, ap, ◌∙◌, subst, ◌⊎◌, inl, inr, Option, Text, List, [], ◌∷◌,
  ◌++◌, arith,
}
use pi_sliding_context_windo.Common.Results.{ok}
use pi_sliding_context_windo.Rocksdb.Outbox.{Publication, Store, Claim}
use pi_sliding_context_windo.Rocksdb.Outbox.Stages.{Host}
use pi_sliding_context_windo.Rocksdb.Outbox.Publish.{publish_transaction}
use pi_sliding_context_windo.Rocksdb.Outbox.Order.{next_sequence, IsOrdered, Touch, Touch-IsOrdered}
use pi_sliding_context_windo.Rocksdb.Outbox.Effects.{renew-Touch, release-Touch, recover-Touch}
use pi_sliding_context_windo.Rocksdb.Outbox.Claiming.{claim-Touch}
use pi_sliding_context_windo.Rocksdb.Outbox.Cleanup.{finish_cleanup}
use pi_sliding_context_windo.Rocksdb.Outbox.Changes.{
  Aside, Aside-IsOrdered, Advance-IsOrdered, finish_cleanup-IsOrdered, enqueue-IsOrdered,
  enqueue-cursor,
}
use pi_sliding_context_windo.Rocksdb.Outbox.Publishing.{publish-Checked, write_publication-Advance}
use pi_sliding_context_windo.Rocksdb.Outbox.Staging.{
  stage_tablet-Aside, stage_header-Aside, clear-Aside, mark_ready-Aside, apply_tablet-Aside,
  cleanup_tablet-Aside,
}
use pi_sliding_context_windo.Rocksdb.Outbox.Steps.{
  consecutive, Step, enqueued, claimed_next, renewed, released_claim, recovered, staged_tablet,
  staged_header, cleared, applied_one, marked_ready, published_one, cleaned_tablet, cleaned, Run,
  here, next,
}

-- The publications from one store to another are those of the entries that the cursor has passed.
pub record Passed (s t : Store) (log : List ℕ) : Type 0 where
  pub ordered : IsOrdered t
  pub count : ℕ
  pub log_at : log ≡ consecutive (next_sequence s) count
  pub cursor_at : next_sequence t ≡ next_sequence s + count

silent : (s t : Store) → IsOrdered t → next_sequence t ≡ next_sequence s → Passed s t []
silent s t i e = record { ordered = i; count = 0; log_at = refl; cursor_at = omega (arith, e) }

unchanged_or :
    {fresh : Option Text} (s t : Store) → IsOrdered s → (t ≡ s) ⊎ Touch fresh s t → Passed s t []
unchanged_or s t i (inl e) = silent s t (subst IsOrdered (sym e) i) (ap next_sequence e)
unchanged_or s t i (inr p) = silent s t (Touch-IsOrdered s i p) (ap next_sequence p.result)

set-Aside : (s t : Store) → IsOrdered s → Aside s t → Passed s t []
set-Aside s t i a = silent s t (Aside-IsOrdered s i a) (ap next_sequence a.result)

consecutive-append :
    (first m n : ℕ) → consecutive first m ++ consecutive (first + m) n ≡ consecutive first (m + n)
consecutive-append first zero n =
    let e : first + 0 ≡ first = omega arith in let f : 0 + n ≡ n = omega arith in rw (e, f) refl
consecutive-append first (suc m) n =
    let e : first + suc m ≡ suc first + m = omega arith in
    let f : suc m + n ≡ suc (m + n) = omega arith in
    rw (e, f) (ap (λ l. first ∷ l) (consecutive-append (suc first) m n))

Passed-trans :
    (s t u : Store) (log new : List ℕ) → Passed s t log → Passed t u new → Passed s u (log ++ new)
Passed-trans s t u log new p q = record {
  ordered = q.ordered;
  count = p.count + q.count;
  log_at =
      ap (λ l. l ++ new) p.log_at
      ∙ ap (λ l. consecutive (next_sequence s) p.count ++ l)
          (q.log_at ∙ ap (λ k. consecutive k q.count) p.cursor_at)
      ∙ consecutive-append (next_sequence s) p.count q.count;
  cursor_at = omega (arith, p.cursor_at, q.cursor_at);
}

module _ (h : Host) where
  publish-Passed :
      (s t : Store) (c : Claim) (now : ℕ) (p : Publication)
      → IsOrdered s
      → publish_transaction h c now s ≡ ok (t, p)
      → Passed s t (c.sequence ∷ [])
  publish-Passed s t c now p i e =
      let (checked, w) = publish-Checked h c now s t p e in
      let (a, at, r) = write_publication-Advance h c now s i checked t p w in
      record {
        ordered = Advance-IsOrdered s i a;
        count = 1;
        log_at = ap (λ j. j ∷ []) at;
        cursor_at = ap next_sequence a.result;
      }

  pub Step-Passed : {s t : Store} {new : List ℕ} → Step h s t new → IsOrdered s → Passed s t new
  unfolding finish_cleanup
  Step-Passed {s} {t} (enqueued p q e) i =
      silent s t (enqueue-IsOrdered s i p t q e)
        (ap (λ c. next_sequence (record s { cursor = c })) (enqueue-cursor s p t q e))
  Step-Passed {s} {t} (claimed_next token worker_id now lease_ms o e) i =
      unchanged_or s t i (claim-Touch s i token worker_id now lease_ms t o e)
  Step-Passed {s} {t} (renewed c now lease_ms st e) i =
      unchanged_or s t i (inr (renew-Touch s i c now lease_ms t st e))
  Step-Passed {s} {t} (released_claim c error now r e) i =
      unchanged_or s t i (release-Touch s i c error now t r e)
  Step-Passed {s} {t} (recovered now q) i = unchanged_or s _ i (recover-Touch s i now q)
  Step-Passed {s} {t} (staged_tablet c o x e) i = set-Aside s t i (stage_tablet-Aside h c s t o x e)
  Step-Passed {s} {t} (staged_header c p e) i = set-Aside s t i (stage_header-Aside h c s t p e)
  Step-Passed {s} {t} (cleared c e) i = set-Aside s t i (clear-Aside h c s t e)
  Step-Passed {s} {t} (applied_one c p o x r e) i =
      set-Aside s t i (apply_tablet-Aside h c s t p o x r e)
  Step-Passed {s} {t} (marked_ready c p x e) i = set-Aside s t i (mark_ready-Aside h c s t p x e)
  Step-Passed {s} {t} (published_one c now p e) i = publish-Passed s t c now p i e
  Step-Passed {s} {t} (cleaned_tablet g p o x e) i =
      set-Aside s t i (cleanup_tablet-Aside h s t g p o x e)
  Step-Passed {s} (cleaned g retained p e l) i =
      silent s _
        (finish_cleanup-IsOrdered s i g p.outbox_sequence retained (i.published_below g p e).0 l)
        refl

  -- In any interleaving of workers that starts from an ordered outbox, whatever claims they hold, the
  -- publications are those of the entries from the cursor on, each once and none skipped, the cursor
  -- stands behind the last of them, and the outbox is ordered again.
  pub Run-Passed : {s t : Store} {log : List ℕ} → Run h s t log → IsOrdered s → Passed s t log
  Run-Passed {s} here i = record { ordered = i; count = 0; log_at = refl; cursor_at = omega arith }
  Run-Passed {s} (next {t} {u} {log} {new} r st) i =
      let p = Run-Passed r i in Passed-trans s t u log new p (Step-Passed st p.ordered)
