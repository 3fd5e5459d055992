-- ===== src/Attachments/Pipeline/Additive.antt =====
-- Every step of the attachment analysis adds its own points to the score, whatever the score is.
use email_security_gateway.Prelude.{
  ℕ, ◌+◌, ◌≤◌, ◌≡◌, Bool, true, false, Option, none, some, List, [], ◌∷◌, arith, ◌==◌,
  if◌then◌else◌,
}
use email_security_gateway.Text.{Str, str, str_eq, starts_with}
use email_security_gateway.Attachments.Models.{
  Attachment, ArchiveInspectionResult, DocumentInspectionResult, SandboxResult, PolyglotResult,
  DocumentUrlExtractionResult,
}
use email_security_gateway.Attachments.Magic.{MagicCheckResult, verify_file_magic}
use email_security_gateway.Attachments.Polyglot.{detect_polyglot_file}
use email_security_gateway.Attachments.Policy.{OrgAttachmentPolicy, AttachmentPolicyResult}
use email_security_gateway.Attachments.Pipeline.{
  Analyzers, Tally, add, archive_points, archives_tally, magic_points, polyglot_points, link_points,
  policy_points, extension_points, document_points, reputation_points, clamav_points,
  sandbox_points, scanned, oversized, tally_one, tally_all, truncation, sandboxed, document_of,
  reputation_of, policy_on,
}

-- What a step adds to the score, whatever the score is
abbrev pub points : (Tally → Tally) → ℕ
points f = (f (0, [])).0

pub record IsAdditive (f : Tally → Tally) : Type 0 where
  pub adds : (t : Tally) → (f t).0 ≡ t.0 + points f

then-IsAdditive : {f g : Tally → Tally} → IsAdditive f → IsAdditive g → IsAdditive (λ t. g (f t))
then-IsAdditive {f} {g} hf hg = record {
  adds = λ t. omega (arith, hf.adds t, hg.adds (f t), hg.adds (f (0, [])));
}

add-IsAdditive : (n : ℕ) (more : List Str) → IsAdditive (add n more)
add-IsAdditive n more = record { adds = λ t. omega arith }

if_IsAdditive :
    (b : Bool) {f g : Tally → Tally}
    → IsAdditive f
    → IsAdditive g
    → IsAdditive (λ t. if b then f t else g t)
if_IsAdditive true hf hg = record { adds = hf.adds }
if_IsAdditive false hf hg = record { adds = hg.adds }

magic_points-IsAdditive : (x : Attachment) (r : MagicCheckResult) → IsAdditive (magic_points x r)
magic_points-IsAdditive x r = record { adds = λ t. ground arith }

polyglot_points-IsAdditive : (r : PolyglotResult) → IsAdditive (polyglot_points r)
polyglot_points-IsAdditive r = record { adds = λ t. ground arith }

link_points-IsAdditive : (r : DocumentUrlExtractionResult) → IsAdditive (link_points r)
link_points-IsAdditive r = record { adds = λ t. ground arith }

policy_points-IsAdditive : (r : AttachmentPolicyResult) → IsAdditive (policy_points r)
policy_points-IsAdditive r = record { adds = λ t. ground arith }

pub archive_points-IsAdditive : (r : ArchiveInspectionResult) → IsAdditive (archive_points r)
archive_points-IsAdditive r = record { adds = λ t. ground arith }

extension_points-IsAdditive : (x : Attachment) → IsAdditive (extension_points x)
extension_points-IsAdditive x = record { adds = λ t. ground arith }

document_points-IsAdditive : (r : DocumentInspectionResult) → IsAdditive (document_points r)
document_points-IsAdditive r = record { adds = λ t. ground arith }

reputation_points-IsAdditive :
    (x : Attachment) (sha256 : Str) (v : Str × Str) → IsAdditive (reputation_points x sha256 v)
reputation_points-IsAdditive x sha256 v = record { adds = λ t. ground arith }

clamav_points-IsAdditive : (x : Attachment) (result : Str) → IsAdditive (clamav_points x result)
clamav_points-IsAdditive x result = record { adds = λ t. ground arith }

sandbox_points-IsAdditive : (r : Option SandboxResult) → IsAdditive (sandbox_points r)
sandbox_points-IsAdditive none = record { adds = λ t. ground arith }
sandbox_points-IsAdditive (some r) = record { adds = λ t. ground arith }

pub truncation-IsAdditive : (n : ℕ) (files : List Attachment) → IsAdditive (truncation n files)
truncation-IsAdditive n files = record { adds = λ t. ground arith }

-- A verdict of malware, of the file reputation or of ClamAV
abbrev pub malware_points : Str × Str → Str → ℕ
malware_points v result =
    (if v.0 == str "malicious" then 100 else 0)
    + (if starts_with result (str "infected:") then 100 else 0)

pub last_steps_le :
    (x : Attachment) (sha256 : Str) (v : Str × Str) (result : Str) (r : Option SandboxResult)
    (t : Tally)
    → malware_points v result
      ≤ (sandbox_points r (clamav_points x result (reputation_points x sha256 v t))).0
last_steps_le x sha256 v result none t = ground arith
last_steps_le x sha256 v result (some r) t = ground arith

module _ (a : Analyzers) (max_size : ℕ) (policy : OrgAttachmentPolicy) where
  scanned-IsAdditive : (x : Attachment) → IsAdditive (scanned a max_size policy x)
  unfolding scanned
  scanned-IsAdditive x =
      let file =
        then-IsAdditive (magic_points-IsAdditive x (verify_file_magic x.filename x.bytes))
          (extension_points-IsAdditive x) in
      let shape =
        then-IsAdditive file (polyglot_points-IsAdditive (detect_polyglot_file x.bytes)) in
      let linked =
        then-IsAdditive shape
          (link_points-IsAdditive (a.extract_document_urls x.filename x.bytes)) in
      let inspected = then-IsAdditive linked (document_points-IsAdditive (document_of a x)) in
      let judged =
        then-IsAdditive inspected (policy_points-IsAdditive (policy_on a max_size policy x)) in
      let known =
        then-IsAdditive judged
          (reputation_points-IsAdditive x (a.sha256_hex x.bytes) (reputation_of a x)) in
      let clean = then-IsAdditive known (clamav_points-IsAdditive x (a.clamav_scan x.bytes)) in
      then-IsAdditive clean (sandbox_points-IsAdditive (sandboxed a x))

  tally_one-IsAdditive : (x : Attachment) → IsAdditive (tally_one a max_size policy x)
  unfolding tally_one
  tally_one-IsAdditive x =
      if_IsAdditive (oversized a max_size policy x) (add-IsAdditive 10 _) (scanned-IsAdditive x)

  pub tally_all-IsAdditive : (xs : List Attachment) → IsAdditive (tally_all a max_size policy xs)
  unfolding tally_all
  tally_all-IsAdditive [] = record { adds = λ t. omega arith }
  tally_all-IsAdditive (x ∷ xs) = then-IsAdditive (tally_one-IsAdditive x) (tally_all-IsAdditive xs)

  pub archives_tally-IsAdditive : (xs : List Attachment) → IsAdditive (archives_tally a xs)
  unfolding archives_tally
  archives_tally-IsAdditive [] = record { adds = λ t. omega arith }
  archives_tally-IsAdditive (x ∷ xs) =
      then-IsAdditive (archive_points-IsAdditive (a.inspect_and_extract_archive x.filename x.bytes))
        (archives_tally-IsAdditive xs)
