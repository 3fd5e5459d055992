-- ===== src/Content/Caching/Freshness.antt =====
-- content_analysis/caching.py: how long the age of a domain is answered from the cache.
use email_security_gateway.Prelude.{
  ℕ, zero, suc, ◌+◌, ◌≤◌, ◌<◌, ◌≡◌, ◌≢◌, ◌∙◌, ap, refl, Bool, true, false, if◌then◌else◌, ltb,
  Option, none, some, List, [], ◌∷◌, All, arith, ◌==◌,
}
use email_security_gateway.Int.{pos}
use email_security_gateway.Dict.{==-refl}
use email_security_gateway.Text.{Str, str_eq, str_beq}
use email_security_gateway.Text.Decimal.{read_int, show_int, read_int-show_int, show_int-ne}
use email_security_gateway.Storage
use email_security_gateway.Storage.{Store, Entry, expired, expiry_at}
use email_security_gateway.Storage.Laws.{view, written, get-eq-view, view-get, view-set}
use email_security_gateway.Content.Caching.{
  Age, days, age_key, read_age, cached_age, age_text, age_ttl, age_of, age_answered,
  get_domain_age_days,
}

same_key : (a b : Str) → (age_key a == age_key b) ≡ (a == b)
unfolding str_beq
same_key a b = refl

-- The text of an answer is read back.
cached_age-age_text : (o : Option ℕ) → cached_age (age_text o) ≡ age_of o
cached_age-age_text none = refl
cached_age-age_text (some n) = full (show_int (pos n)) (show_int-ne n) (read_int-show_int n)
  where
    full : (t : Str) → t ≢ [] → read_int t ≡ some (pos n) → cached_age t ≡ days (some (pos n))
    full [] ne h = absurd (ne refl)
    full (c ∷ t) ne h = ap read_age h

-- One lookup of the age of some domain, with what the wrapped provider would answer
pub record Lookup : Type 0 where
  pub time : ℕ
  pub domain : Str
  pub wrapped : Str → Option ℕ

module _ (ttl_seconds : ℕ) where
  abbrev pub age_after : Lookup → Store → Store
  age_after l s = (get_domain_age_days ttl_seconds l.time l.domain l.wrapped s).1

  pub after : List Lookup → Store → Store
  after [] s = s
  after (l ∷ ls) s = after ls (age_after l s)

  answered_hit :
      (l : Lookup) (p : Option Str × Store) (v : Str)
      → p.0 ≡ some v
      → age_answered ttl_seconds l.time l.domain l.wrapped p ≡ (cached_age v, p.1)
  answered_hit l (none, s) v h = cc
  answered_hit l (some c, s) v h = ground arith

  view-answered_other :
      (l : Lookup) (p : Option Str × Store) (later : ℕ) (key : Str)
      → (age_key l.domain == key) ≡ false
      → view (age_answered ttl_seconds l.time l.domain l.wrapped p).1 later key ≡ view p.1 later key
  view-answered_other l (some c, s) later key h = refl
  view-answered_other l (none, s) later key h =
      view-set l.time (age_key l.domain) (age_text (l.wrapped l.domain))
        (some (age_ttl ttl_seconds (l.wrapped l.domain))) s later key
      ∙ rw h refl

  -- A live value is answered, and stays.
  age_hit :
      (l : Lookup) (s : Store) (v : Str)
      → view s l.time (age_key l.domain) ≡ some v
      → get_domain_age_days ttl_seconds l.time l.domain l.wrapped s
        ≡ (cached_age v, (Storage.get l.time (age_key l.domain) s).1)
  unfolding get_domain_age_days
  age_hit l s v h =
      answered_hit l (Storage.get l.time (age_key l.domain) s) v
        (get-eq-view l.time (age_key l.domain) s ∙ h)

  view-after :
      (domain : Str) (ls : List Lookup) (s : Store) (later : ℕ)
      → All (λ (l : Lookup). (l.time ≤ later) × ((l.domain == domain) ≡ false)) ls
      → view (after ls s) later (age_key domain) ≡ view s later (age_key domain)
  unfolding after get_domain_age_days
  view-after domain [] s later h = refl
  view-after domain (l ∷ ls) s later h =
      let (earlier, other) = h.0 in
      view-after domain ls (age_after l s) later h.1
      ∙ view-answered_other l (Storage.get l.time (age_key l.domain) s) later (age_key domain)
          (same_key l.domain domain ∙ other)
      ∙ view-get l.time (age_key l.domain) s later (age_key domain) earlier

  answered_miss :
      (l : Lookup) (p : Option Str × Store)
      → p.0 ≡ none
      → age_answered ttl_seconds l.time l.domain l.wrapped p ≡ (
        age_of (l.wrapped l.domain),
        Storage.set l.time
            (age_key l.domain)
            (age_text (l.wrapped l.domain))
            (some (age_ttl ttl_seconds (l.wrapped l.domain)))
            p.1,
      )
  answered_miss l (none, s) h = refl
  answered_miss l (some c, s) h = cc

  -- How long an answer is kept: the time to live, and at most five minutes for a failed lookup
  abbrev pub lifetime : Option ℕ → ℕ
  lifetime (some n) = ttl_seconds
  lifetime none = if ltb 300 ttl_seconds then 300 else ttl_seconds

  written_lem :
      (v : Str) (now ttl later : ℕ)
      → 0 < ttl
      → written v (expiry_at now (some ttl)) later
        ≡ (if ltb later (now + ttl) then some v else none)
  written_lem v now zero later h = ground (arith, h)
  written_lem v now (suc ttl) later h = ground arith

  age_ttl_lem : (o : Option ℕ) → age_ttl ttl_seconds o ≡ lifetime o
  age_ttl_lem none = ground arith
  age_ttl_lem (some n) = refl

  lifetime_positive : (o : Option ℕ) → 0 < ttl_seconds → 0 < lifetime o
  lifetime_positive none h = ground arith
  lifetime_positive (some n) h = h

  -- A lookup of a domain that is not in the cache answers what the provider does, and writes it.
  age_miss :
      (l : Lookup) (s : Store)
      → view s l.time (age_key l.domain) ≡ none
      → get_domain_age_days ttl_seconds l.time l.domain l.wrapped s ≡ (
        age_of (l.wrapped l.domain),
        Storage.set l.time
            (age_key l.domain)
            (age_text (l.wrapped l.domain))
            (some (age_ttl ttl_seconds (l.wrapped l.domain)))
            (Storage.get l.time (age_key l.domain) s).1,
      )
  unfolding get_domain_age_days
  age_miss l s h =
      answered_miss l (Storage.get l.time (age_key l.domain) s)
        (get-eq-view l.time (age_key l.domain) s ∙ h)

  view-age_miss :
      (l : Lookup) (s : Store) (later : ℕ)
      → 0 < ttl_seconds
      → view s l.time (age_key l.domain) ≡ none
      → view (age_after l s) later (age_key l.domain) ≡ (
          if ltb later (l.time + lifetime (l.wrapped l.domain))
          then some (age_text (l.wrapped l.domain))
          else none)
  view-age_miss l s later p h =
      let o = l.wrapped l.domain in
      ap (λ (r : Age × Store). view r.1 later (age_key l.domain)) (age_miss l s h)
      ∙ view-set l.time (age_key l.domain) (age_text o) (some (age_ttl ttl_seconds o))
          (Storage.get l.time (age_key l.domain) s).1 later (age_key l.domain)
      ∙ rw (==-refl (age_key l.domain), age_ttl_lem o)
          (written_lem (age_text o) l.time (lifetime o) later (lifetime_positive o p))

  -- What is seen of the cache decides the answer.
  answer_of_view :
      (m : Lookup) (s : Store) (fresh : Bool) (o : Option ℕ)
      → view s m.time (age_key m.domain) ≡ (if fresh then some (age_text o) else none)
      → (get_domain_age_days ttl_seconds m.time m.domain m.wrapped s).0
        ≡ age_of (if fresh then o else m.wrapped m.domain)
  answer_of_view m s true o h =
      ap (λ (r : Age × Store). r.0) (age_hit m s (age_text o) h) ∙ cached_age-age_text o
  answer_of_view m s false o h = ap (λ (r : Age × Store). r.0) (age_miss m s h)

  -- A domain that is not in the cache is looked up. A later lookup of it, with any lookups of other
  -- domains in between, gives that same answer for as long as it is kept (the time to live, which is not
  -- 0, and at most five minutes for a failed lookup), whatever the provider would say by then; after
  -- that, it gives what the provider then says.
  pub cached_age_keeps :
      (l m : Lookup) (between : List Lookup) (s : Store)
      → 0 < ttl_seconds
      → view s l.time (age_key l.domain) ≡ none
      → m.domain ≡ l.domain
      → All (λ (x : Lookup). (x.time ≤ m.time) × ((x.domain == l.domain) ≡ false)) between
      → ((get_domain_age_days ttl_seconds l.time l.domain l.wrapped s).0
          ≡ age_of (l.wrapped l.domain))
        × ((get_domain_age_days ttl_seconds m.time m.domain m.wrapped
              (after between (age_after l s))).0
            ≡ age_of (
                if ltb m.time (l.time + lifetime (l.wrapped l.domain))
                then l.wrapped l.domain
                else m.wrapped m.domain))
  cached_age_keeps l m between s p h same others =
      let kept =
        view-after l.domain between (age_after l s) m.time others ∙ view-age_miss l s m.time p h in
      (
        ap (λ (r : Age × Store). r.0) (age_miss l s h),
        answer_of_view m (after between (age_after l s))
            (ltb m.time (l.time + lifetime (l.wrapped l.domain))) (l.wrapped l.domain)
            (rw same kept),
      )
