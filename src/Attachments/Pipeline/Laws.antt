-- ===== src/Attachments/Pipeline/Laws.antt =====
-- What the score of the attachments guarantees.
use email_security_gateway.Prelude.{
  ℕ, zero, suc, ◌+◌, ◌≤◌, ◌≡◌, refl, Bool, true, ◌&&◌, ◌||◌, not, List, [], ◌∷◌, ◌++◌,
  length-append, take, ap, sym, any, arith, ◌==◌, Bool-cases, inl, inr,
}
use mathlib.Core.List.{append_assoc}
use email_security_gateway.Text.{str, str_eq, starts_with}
use email_security_gateway.Attachments.Models.{Attachment}
use email_security_gateway.Attachments.Policy.{OrgAttachmentPolicy}
use email_security_gateway.Attachments.Pipeline.Additive.{
  points, malware_points, last_steps_le, truncation-IsAdditive, tally_all-IsAdditive,
  archives_tally-IsAdditive,
}
use email_security_gateway.Attachments.Pipeline.{
  Analyzers, children, archive_points, expanded, archives_tally, scanned, oversized, tally_one,
  tally_all, truncation, analyze_attachments, sandboxed, reputation_of,
}

module _ (a : Analyzers) (max_size : ℕ) (policy : OrgAttachmentPolicy) where
  abbrev points_all : List Attachment → ℕ
  points_all files = points (tally_all a max_size policy files)

  points-cons :
      (x : Attachment) (xs : List Attachment)
      → points_all (x ∷ xs) ≡ points (tally_one a max_size policy x) + points_all xs
  unfolding tally_all
  points-cons x xs =
      (tally_all-IsAdditive a max_size policy xs).adds (tally_one a max_size policy x (0, []))

  -- The score is the sum of what the archives, the truncation and the analyzed files add.
  pub score_is_sum :
      (n : ℕ) (xs : List Attachment)
      → (analyze_attachments a max_size policy n xs).score_delta
        ≡ points (archives_tally a xs)
          + points (truncation n (expanded a xs))
          + points_all (take n (expanded a xs))
  unfolding analyze_attachments
  score_is_sum n xs =
      let files = expanded a xs in
      let t = archives_tally a xs (0, []) in
      omega (
        arith,
        (truncation-IsAdditive n files).adds t,
        (tally_all-IsAdditive a max_size policy (take n files)).adds (truncation n files t),
      )

  -- A file that is scanned and that the reputation service or ClamAV calls malware
  abbrev pub is_malware : Attachment → Bool
  is_malware x =
      not (oversized a max_size policy x)
      && (((reputation_of a x).0 == str "malicious")
          || starts_with (a.clamav_scan x.bytes) (str "infected:"))

  malware_scanned :
      (x : Attachment)
      → malware_points (reputation_of a x) (a.clamav_scan x.bytes)
        ≤ points (scanned a max_size policy x)
  unfolding scanned
  malware_scanned x =
      last_steps_le x (a.sha256_hex x.bytes) (reputation_of a x) (a.clamav_scan x.bytes)
        (sandboxed a x) _

  malware_one :
      (x : Attachment) → is_malware x ≡ true → 100 ≤ points (tally_one a max_size policy x)
  unfolding tally_one
  malware_one x h = ground (arith, malware_scanned x)

  malware_all : (xs : List Attachment) → any is_malware xs ≡ true → 100 ≤ points_all xs
  malware_all [] h = ground arith
  malware_all (x ∷ xs) h = elim (Bool-cases (is_malware x)) [
    | inl now ↦ omega (arith, points-cons x xs, malware_one x now)
    | inr later ↦ omega (arith, points-cons x xs, malware_all xs (ground (arith, h, later)))
  ]

  -- Malware among the first `max_attachments` files, those of archives included, brings the score to
  -- 100 or more, whatever the other analyzers and files say.
  pub malware_scores :
      (n : ℕ) (xs : List Attachment)
      → any is_malware (take n (expanded a xs)) ≡ true
      → 100 ≤ (analyze_attachments a max_size policy n xs).score_delta
  malware_scores n xs h = omega (arith, score_is_sum n xs, malware_all (take n (expanded a xs)) h)

  expanded-append :
      (xs ys : List Attachment) → expanded a (xs ++ ys) ≡ expanded a xs ++ expanded a ys
  unfolding expanded
  expanded-append [] ys = refl
  expanded-append (x ∷ xs) ys =
      let inner = children (a.inspect_and_extract_archive x.filename x.bytes) in
      rw (expanded-append xs ys)
        (ap (λ zs. x ∷ zs) (sym (append_assoc inner (expanded a xs) (expanded a ys))))

  archives-append :
      (xs ys : List Attachment)
      → points (archives_tally a xs) ≤ points (archives_tally a (xs ++ ys))
  unfolding archives_tally
  archives-append [] ys = omega arith
  archives-append (x ∷ xs) ys =
      let t = archive_points (a.inspect_and_extract_archive x.filename x.bytes) (0, []) in
      omega (
        arith,
        (archives_tally-IsAdditive a max_size policy xs).adds t,
        (archives_tally-IsAdditive a max_size policy (xs ++ ys)).adds t,
        archives-append xs ys,
      )

  take-append :
      (n : ℕ) (xs ys : List Attachment) → points_all (take n xs) ≤ points_all (take n (xs ++ ys))
  unfolding tally_all
  take-append zero xs ys = omega arith
  take-append (suc n) [] ys = omega arith
  take-append (suc n) (x ∷ xs) ys =
      omega
        (arith, points-cons x (take n xs), points-cons x (take n (xs ++ ys)), take-append n xs ys)

  truncation-append :
      (n : ℕ) (xs ys : List Attachment)
      → points (truncation n xs) ≤ points (truncation n (xs ++ ys))
  truncation-append n xs ys = ground (arith, length-append xs ys)

  -- More attachments, behind the others, never lower the score.
  pub appending_never_lowers :
      (n : ℕ) (xs ys : List Attachment)
      → (analyze_attachments a max_size policy n xs).score_delta
        ≤ (analyze_attachments a max_size policy n (xs ++ ys)).score_delta
  appending_never_lowers n xs ys = omega (
    arith,
    score_is_sum n xs,
    score_is_sum n (xs ++ ys),
    archives-append xs ys,
    ap (λ files. points (truncation n files) + points_all (take n files)) (expanded-append xs ys),
    truncation-append n (expanded a xs) (expanded a ys),
    take-append n (expanded a xs) (expanded a ys),
  )
