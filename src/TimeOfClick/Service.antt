-- ===== src/TimeOfClick/Service.antt =====
-- time_of_click/service.py: the check of a link's signature, and of its target at the time of the click.
use email_security_gateway.Prelude.{
  ◌≡◌, refl, Bool, true, false, ◌||◌, Option, none, some, [], ◌++◌, take, is_empty, ◌==◌, ◌∙◌, ap,
  if◌then◌else◌,
}
use email_security_gateway.Text.{Str, str, str_eq, str_beq_iff, rstrip_char}
use email_security_gateway.Dict.{==-refl}
use email_security_gateway.TimeOfClick.Rewriter.{generate_url_signature, create_toc_url}

-- What a provider of reputations answers: a value with the attribute that is read, a pair of texts, which
-- is what the providers of the repository answer, or an exception.
pub data Verdict : Type 0 where
  flagged : Bool → Str → Verdict
  pair : Str → Str → Verdict
  raised : Str → Verdict

-- `decode` is `base64.urlsafe_b64decode` with the decoding of UTF-8, and nothing is an exception.
module _ (hexdigest : Str → Str → Str) (encode : Str → Str) (decode : Str → Option Str) where
  module _ (secret_key : Str) where
    abbrev pub signature_of : Str → Str
    signature_of url = generate_url_signature hexdigest encode url secret_key

    abbrev pub verified : Str → Option Str → Bool × Str
    verified signature none = (false, [])
    verified signature (some target_url) = (signature == signature_of target_url, target_url)

    unfoldable pub decode_and_verify : Str → Str → Bool × Str
    decode_and_verify encoded_url signature =
        if is_empty encoded_url || is_empty signature
        then (false, [])
        else verified signature (decode encoded_url)

    abbrev pub degraded : Str → Bool × Str
    degraded error =
        (true, str "Click-time check degraded (" ++ error ++ str "); allowing redirect")

    abbrev pub judged : Verdict → Bool × Str
    judged (flagged true threat) = (false, str "URL flagged as malicious at click-time: " ++ threat)
    judged (flagged false threat) = (true, str "URL verified clean at click-time")
    judged (pair verdict source) = degraded (str "'tuple' object has no attribute 'is_malicious'")
    judged (raised error) = degraded error

    abbrev pub evaluated : Option (Str → Verdict) → Str → Bool × Str
    evaluated none url = (true, str "No live reputation provider configured; click allowed")
    evaluated (some check_url) url = judged (check_url url)

    abbrev pub evaluate_click : Option (Str → Verdict) → Str → Bool × Str
    evaluate_click provider target_url =
        if is_empty target_url
        then (false, str "Empty or invalid URL")
        else evaluated provider target_url

    verified_lem :
        (sig target : Str) (o : Option Str)
        → verified sig o ≡ (true, target)
        → (o ≡ some target) × (sig ≡ signature_of target)
    verified_lem sig target none h = (cc, cc)
    verified_lem sig target (some url) h =
        let same : url ≡ target = ap (λ x. x.1) h in
        (
          ap some same,
          (str_beq_iff sig (signature_of url)).0 (ap (λ x. x.0) h) ∙ ap signature_of same,
        )

    unless_blank_lem :
        (no_url no_sig : Bool) (sig target : Str) (o : Option Str)
        → (if no_url || no_sig then (false, []) else verified sig o) ≡ (true, target)
        → (no_url ≡ false) × (no_sig ≡ false) × (o ≡ some target) × (sig ≡ signature_of target)
    unless_blank_lem true no_sig sig target o h = (cc, cc, cc, cc)
    unless_blank_lem false true sig target o h = (cc, cc, cc, cc)
    unless_blank_lem false false sig target o h =
        let (decoded, signed) = verified_lem sig target o h in (refl, refl, decoded, signed)

    -- A link is only accepted, and then with the target that it encodes, if neither of its parts is
    -- empty and its signature is the beginning of the digest of that target with the gateway's key, 16
    -- digits of it.
    pub decode_and_verify-IsSigned :
        (url sig target : Str)
        → decode_and_verify url sig ≡ (true, target)
        → (is_empty url ≡ false)
          × (is_empty sig ≡ false)
          × (decode url ≡ some target)
          × (sig ≡ take 16 (hexdigest secret_key target))
    unfolding decode_and_verify
    decode_and_verify-IsSigned url sig target h =
        unless_blank_lem (is_empty url) (is_empty sig) sig target (decode url) h

    -- The link that the rewriter makes of a target is one to /toc/redirect of the gateway, with two
    -- parameters that the service accepts, giving the target back, if base64 is undone by its decoding
    -- and neither the encoded target nor the beginning of the digest is empty.
    pub create_toc_url_is_accepted :
        (gateway_base_url target : Str)
        → decode (encode target) ≡ some target
        → is_empty (encode target) ≡ false
        → is_empty (take 16 (hexdigest secret_key target)) ≡ false
        → (url : Str) × (sig : Str) × (create_toc_url hexdigest encode gateway_base_url secret_key
              target
            ≡ rstrip_char b'/' gateway_base_url
              ++ str "/toc/redirect?url="
              ++ url
              ++ str "&sig="
              ++ sig)
          × (decode_and_verify url sig ≡ (true, target))
    unfolding decode_and_verify create_toc_url
    create_toc_url_is_accepted gateway_base_url target d e f = (
      encode target,
      signature_of target,
      refl,
      rw (e, f) (rw d (rw (==-refl (signature_of target)) refl)),
    )
