-- ===== src/Session/Epoch/Restored.antt =====
-- The state that src/session/epoch-window.js restores is a valid one, and the one that was saved.
use pi_sliding_context_windo.Common.{
  ◌≤◌, ◌<◌, ◌≡◌, refl, inl, inr, true, false, Option, none, some, List, [], ◌∷◌, ◌++◌, Text, arith,
  ◌==◌, length, map, All, Bool-cases, All-map,
}
use pi_sliding_context_windo.Session.Epoch.{
  toc_max_entries, hint_state_version, max_reconstruct_only_hint_keys, max_key_length, Checkpoint,
  Epoch, CompletedData, HintData, Entry, foreign, rotation, is_reason, is_mode, is_positive, tested,
  last, filter_map, set_of, is_hint_key, hint_keys, is_completed, checkpoint_of, initial, toc_of,
  apply_entry, apply_entries, restore,
}
use pi_sliding_context_windo.Session.Epoch.Fields.{
  last-all, length-last, last-All, filter_map-All, filter_map-map, tested-yes, tested-some,
  tested-tested, set_of-All, length-set_of, set_of-set_of,
}

-- A key that may stand for a completed turn.
abbrev pub IsCheckpoint : Option Checkpoint → Type 0
IsCheckpoint none = Unit
IsCheckpoint (some c) = (0 < length c.message_key) × (length c.message_key ≤ max_key_length)

-- The keys of hints: valid, no more than are saved, and each once.
pub record AreHintKeys (ks : List Text) : Type 0 where
  pub valid : All (λ k. is_hint_key k ≡ true) ks
  pub bounded : length ks ≤ max_reconstruct_only_hint_keys
  pub distinct : set_of [] ks ≡ ks

hint_keys-AreHintKeys : (h : Option HintData) → AreHintKeys (hint_keys h)
unfolding hint_keys set_of
hint_keys-AreHintKeys none = record {
  valid = tt;
  bounded = omega arith;
  distinct = set_of-set_of [] [];
}
hint_keys-AreHintKeys (some h) = elim (Bool-cases (h.version == hint_state_version)) [
  | inr f ↦ rw f (record { valid = tt; bounded = omega arith; distinct = set_of-set_of [] [] })
  | inl t ↦
      let read = filter_map (tested is_hint_key) h.reconstruct_only_message_keys in
      let kept = last max_reconstruct_only_hint_keys read in
      let v : All (λ k. is_hint_key k ≡ true) read =
        filter_map-All (λ k. is_hint_key k ≡ true) (tested is_hint_key)
          h.reconstruct_only_message_keys (tested-some is_hint_key) in
      rw t (record {
        valid =
            set_of-All (λ k. is_hint_key k ≡ true) [] kept
              (last-All (λ k. is_hint_key k ≡ true) max_reconstruct_only_hint_keys read v);
        bounded =
            omega (arith, length-set_of [] kept, length-last max_reconstruct_only_hint_keys read);
        distinct = set_of-set_of [] kept;
      })
]

-- What is saved of such keys is read back.
pub hint_keys-saved :
    (ks : List Text)
    → AreHintKeys ks
    → hint_keys (
        some (record {
          version = hint_state_version;
          reconstruct_only_message_keys = map some (last max_reconstruct_only_hint_keys ks);
        }))
      ≡ ks
unfolding hint_keys
hint_keys-saved ks h =
    let l : last max_reconstruct_only_hint_keys ks ≡ ks =
      last-all max_reconstruct_only_hint_keys ks h.bounded in
    let m : filter_map (tested is_hint_key) (map some ks) ≡ ks =
      filter_map-map (tested is_hint_key) some ks
        (All-map (λ k v. tested-yes is_hint_key k v) ks h.valid) in
    rw (l, m, l) h.distinct

checkpoint_of-IsCheckpoint :
    (d : Option CompletedData) (before : Option Checkpoint)
    → IsCheckpoint before
    → IsCheckpoint (checkpoint_of d before)
unfolding checkpoint_of
checkpoint_of-IsCheckpoint none before h = h
checkpoint_of-IsCheckpoint (some d) before h = elim (Bool-cases (is_completed d)) [
  | inl t ↦ rw (t, checkpoint_of) (ground (arith, t), ground (arith, t))
  | inr f ↦ rw (f, checkpoint_of) h
]

module _ {T : Type 0} (restored_toc_entry : T → Option T) where
  -- A state that a session may be in after a restart.
  pub record IsEpoch (e : Epoch T) : Type 0 where
    pub reason : tested is_reason e.last_rotation_reason ≡ e.last_rotation_reason
    pub mode : tested is_mode e.last_rotation_mode ≡ e.last_rotation_mode
    pub retained : tested is_positive e.effective_retain_turns ≡ e.effective_retain_turns
    pub toc_kept : All (λ t. restored_toc_entry t ≡ some t) e.toc
    pub toc_bounded : length e.toc ≤ toc_max_entries
    pub checkpoint : IsCheckpoint e.completed_archive_checkpoint
    pub hint_keys_valid : AreHintKeys e.reconstruct_only_keys

  initial-IsEpoch : IsEpoch initial
  unfolding tested hint_keys
  initial-IsEpoch = record {
    reason = refl;
    mode = refl;
    retained = refl;
    toc_kept = tt;
    toc_bounded = omega arith;
    checkpoint = tt;
    hint_keys_valid = hint_keys-AreHintKeys none;
  }

  toc_of-kept :
      ((t u : T) → restored_toc_entry t ≡ some u → restored_toc_entry u ≡ some u)
      → (values : Option (List T)) (before : List T)
      → All (λ t. restored_toc_entry t ≡ some t) before
      → length before ≤ toc_max_entries
      → All (λ t. restored_toc_entry t ≡ some t) (toc_of restored_toc_entry values before)
        × (length (toc_of restored_toc_entry values before) ≤ toc_max_entries)
  unfolding toc_of
  toc_of-kept stable none before h b = (h, b)
  toc_of-kept stable (some values) before h b =
      let read = filter_map restored_toc_entry values in
      (
        last-All (λ t. restored_toc_entry t ≡ some t) toc_max_entries read
            (filter_map-All (λ t. restored_toc_entry t ≡ some t) restored_toc_entry values stable),
        length-last toc_max_entries read,
      )

  apply_entry-IsEpoch :
      ((t u : T) → restored_toc_entry t ≡ some u → restored_toc_entry u ≡ some u)
      → (x : Entry T) (e : Epoch T) → IsEpoch e
      → IsEpoch (apply_entry restored_toc_entry x e)
  unfolding apply_entry
  apply_entry-IsEpoch stable foreign e h = h
  apply_entry-IsEpoch stable (rotation d) e h =
      let (k, b) = toc_of-kept stable d.toc e.toc h.toc_kept h.toc_bounded in
      record {
        reason = tested-tested is_reason d.reason;
        mode = tested-tested is_mode d.mode;
        retained = tested-tested is_positive d.effective_retain_turns;
        toc_kept = k;
        toc_bounded = b;
        checkpoint =
            checkpoint_of-IsCheckpoint d.completed_archive_state e.completed_archive_checkpoint
              h.checkpoint;
        hint_keys_valid = hint_keys-AreHintKeys d.hint_state;
      }

  apply_entries-IsEpoch :
      ((t u : T) → restored_toc_entry t ≡ some u → restored_toc_entry u ≡ some u)
      → (xs : List (Entry T)) (e : Epoch T) → IsEpoch e
      → IsEpoch (apply_entries restored_toc_entry xs e)
  unfolding apply_entries
  apply_entries-IsEpoch stable [] e h = h
  apply_entries-IsEpoch stable (x ∷ xs) e h =
      apply_entries-IsEpoch stable xs (apply_entry restored_toc_entry x e)
        (apply_entry-IsEpoch stable x e h)

  -- Whatever the log holds, the state that is restored is a valid one, if a restored entry of the table
  -- of contents is restored as itself.
  pub restore-IsEpoch :
      ((t u : T) → restored_toc_entry t ≡ some u → restored_toc_entry u ≡ some u)
      → (log : List (Entry T)) → IsEpoch (restore restored_toc_entry log)
  unfolding restore
  restore-IsEpoch stable log = apply_entries-IsEpoch stable log initial initial-IsEpoch

  -- Nothing in the log leaves a rotation pending or a fallback to compaction.
  pub apply_entries-idle :
      (xs : List (Entry T)) (e : Epoch T)
      → ((apply_entries restored_toc_entry xs e).force_rotation ≡ e.force_rotation)
        × ((apply_entries restored_toc_entry xs e).compaction_fallback_reason
            ≡ e.compaction_fallback_reason)
  unfolding apply_entries apply_entry
  apply_entries-idle [] e = (refl, refl)
  apply_entries-idle (foreign ∷ xs) e = apply_entries-idle xs e
  apply_entries-idle (rotation d ∷ xs) e = apply_entries-idle xs _

  pub apply_entries-append :
      (xs ys : List (Entry T)) (e : Epoch T)
      → apply_entries restored_toc_entry (xs ++ ys) e
        ≡ apply_entries restored_toc_entry ys (apply_entries restored_toc_entry xs e)
  unfolding apply_entries
  apply_entries-append [] ys e = refl
  apply_entries-append (x ∷ xs) ys e =
      apply_entries-append xs ys (apply_entry restored_toc_entry x e)

  pub restore-idle :
      (log : List (Entry T))
      → ((restore restored_toc_entry log).force_rotation ≡ false)
        × ((restore restored_toc_entry log).compaction_fallback_reason ≡ none)
  unfolding restore
  restore-idle log = apply_entries-idle log initial
