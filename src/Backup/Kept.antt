-- ===== src/Backup/Kept.antt =====
-- What retention never deletes, and when a manifest goes.
use precis_finance_mcp.Common.{
  String, ◌≡◌, ◌⊎◌, arith, Bool, true, false, not, ◌&&◌, some, List, [], ◌∷◌, ◌++◌, ◌==◌, eq_iff,
  is_empty, mem, mem-append, mem-keep, keep, Dict, lookup, keys, Bool-cases, inl, inr, sym,
  text_cases, subst,
}
use precis_finance_mcp.Backup.{
  BackupManifest, artifact_keys, Pruning, delete, delete_artifacts, exists, remaining,
  prune_manifest, prune_doomed,
}

-- No artifact of the manifest is there, but for those whose size cannot be asked for.
abbrev pub Gone : (String → Bool) → BackupManifest → Pruning → Type 0
Gone fails m st =
    (a : String)
    → mem a (artifact_keys m.artifacts) ≡ true
    → mem a st.objects ≡ true
    → fails a ≡ true

-- The artifacts that are doomed.
abbrev pub doomed_keys : Dict (List String) → List String
doomed_keys [] = []
doomed_keys ((mkey, akeys) ∷ doomed) = akeys ++ doomed_keys doomed

module _ (denies : String → Bool) where
  mem-delete :
      (k key : String) (st : Pruning)
      → mem k (delete denies key st).objects
        ≡ (mem k st.objects && not (k == key && not (denies key)))
  unfolding delete
  mem-delete k key st = ground (arith, mem-keep (λ x. not (x == key)) k st.objects)

  -- Exactly the named objects whose delete is not denied go.
  mem-delete_artifacts :
      (k : String) (akeys : List String) (st : Pruning)
      → mem k (delete_artifacts denies akeys st).objects
        ≡ (mem k st.objects && not (mem k akeys && not (denies k)))
  unfolding delete_artifacts
  mem-delete_artifacts k [] st = ground arith
  mem-delete_artifacts k (akey ∷ akeys) st = ground (
    arith,
    mem-delete_artifacts k akeys (delete denies akey st),
    mem-delete k akey st,
    eq_iff k akey,
    eq_iff akey k,
  )

  module _ (size_fails : String → String → Bool) (manifests : Dict BackupManifest) where
    -- Nothing comes back.
    prune_manifest_less :
        (k mkey : String) (akeys : List String) (st : Pruning)
        → mem k (prune_manifest denies size_fails manifests mkey akeys st).objects ≡ true
        → mem k st.objects ≡ true
    unfolding prune_manifest
    prune_manifest_less k mkey akeys st there = ground (
      arith,
      mem-delete k mkey (delete_artifacts denies akeys st),
      mem-delete_artifacts k akeys st,
    )

    -- What is not named stays.
    prune_manifest_keeps :
        (k mkey : String) (akeys : List String) (st : Pruning)
        → mem k st.objects ≡ true
        → mem k akeys ≡ false
        → (mkey == k) ≡ false
        → mem k (prune_manifest denies size_fails manifests mkey akeys st).objects ≡ true
    unfolding prune_manifest
    prune_manifest_keeps k mkey akeys st there other own = ground (
      arith,
      mem-delete k mkey (delete_artifacts denies akeys st),
      mem-delete_artifacts k akeys st,
      eq_iff k mkey,
      eq_iff mkey k,
    )

    keep_empty :
        (p : String → Bool) (xs : List String) (x : String)
        → is_empty (keep p xs) ≡ true
        → mem x xs ≡ true
        → p x ≡ false
    keep_empty p [] x h there = cc
    keep_empty p (y ∷ ys) x h there = ground (arith, eq_iff y x, keep_empty p ys x)

    -- A manifest that is still there after its turn, or all of whose artifacts are gone.
    prune_manifest-Gone :
        (mkey : String) (m : BackupManifest) (akeys : List String) (st : Pruning)
        → lookup mkey manifests ≡ some m
        → mem mkey st.objects ≡ true
        → mem mkey akeys ≡ false
        → (mem mkey (prune_manifest denies size_fails manifests mkey akeys st).objects ≡ true)
          ⊎ Gone (size_fails mkey) m (prune_manifest denies size_fails manifests mkey akeys st)
    unfolding prune_manifest
    prune_manifest-Gone mkey m akeys st known there other =
        let after = delete_artifacts denies akeys st in
        let left = remaining denies size_fails mkey (artifact_keys m.artifacts) akeys after in
        elim (Bool-cases (is_empty left)) [
          | inr some_left ↦ inl (
              rw (prune_manifest, known, some_left)
                (ground (arith, mem-delete_artifacts mkey akeys st)))
          | inl none_left ↦ inr (λ a named still. ground (
            arith,
            known,
            still,
            none_left,
            keep_empty
                (λ k. not (mem k akeys && not (denies k)) && exists (size_fails mkey) k after)
                (artifact_keys m.artifacts) a none_left named,
            mem-delete_artifacts a akeys st,
            mem-delete a mkey after,
          ))
        ]

    pub prune_doomed-Gone :
        (doomed : Dict (List String)) (mkey : String) (m : BackupManifest) (st : Pruning)
        → lookup mkey manifests ≡ some m
        → mem mkey (doomed_keys doomed) ≡ false
        → (mem mkey st.objects ≡ true) ⊎ Gone (size_fails mkey) m st
        → (mem mkey (prune_doomed denies size_fails manifests doomed st).objects ≡ true)
          ⊎ Gone (size_fails mkey) m (prune_doomed denies size_fails manifests doomed st)
    unfolding prune_doomed
    prune_doomed-Gone [] mkey m st known other now = now
    prune_doomed-Gone ((j, akeys) ∷ doomed) mkey m st known other now =
        let next = prune_manifest denies size_fails manifests j akeys st in
        let apart : (mem mkey akeys ≡ false) × (mem mkey (doomed_keys doomed) ≡ false) = (
          ground (arith, mem-append mkey akeys (doomed_keys doomed)),
          ground (arith, mem-append mkey akeys (doomed_keys doomed)),
        ) in
        prune_doomed-Gone doomed mkey m next known apart.1 (elim now [
          | inr gone ↦ inr (λ a named still. gone a named (prune_manifest_less a j akeys st still))
          | inl there ↦ elim (text_cases j mkey) [
            | inl (e, _) ↦
                subst
                  (λ (x : String).
                    (mem mkey (prune_manifest denies size_fails manifests x akeys st).objects
                      ≡ true)
                    ⊎ Gone (size_fails mkey) m
                        (prune_manifest denies size_fails manifests x akeys st))
                  (sym e) (prune_manifest-Gone mkey m akeys st known there apart.0)
            | inr ne ↦ inl (prune_manifest_keeps mkey j akeys st there apart.0 ne)
          ]
        ])

    pub prune_doomed_keeps :
        (doomed : Dict (List String)) (k : String) (st : Pruning)
        → mem k st.objects ≡ true
        → mem k (doomed_keys doomed) ≡ false
        → mem k (keys doomed) ≡ false
        → mem k (prune_doomed denies size_fails manifests doomed st).objects ≡ true
    unfolding prune_doomed
    prune_doomed_keeps [] k st there other own = there
    prune_doomed_keeps ((j, akeys) ∷ doomed) k st there other own =
        prune_doomed_keeps doomed k (prune_manifest denies size_fails manifests j akeys st)
          (prune_manifest_keeps k j akeys st there
            (ground (arith, mem-append k akeys (doomed_keys doomed))) (ground arith))
          (ground (arith, mem-append k akeys (doomed_keys doomed))) (ground arith)
