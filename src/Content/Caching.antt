-- ===== src/Content/Caching.antt =====
-- content_analysis/caching.py: the caches in front of the lookups of a domain's age and a link's
-- reputation, over the in-memory store. What a wrapped provider answers is an argument of each call.
pub mod Freshness
use email_security_gateway.Prelude.{
  ℕ, Bool, true, false, Option, none, some, List, [], ◌∷◌, ◌++◌, ltb, is_empty, ◌==◌, if◌then◌else◌,
}
use email_security_gateway.Int.{ℤ, pos}
use email_security_gateway.Text.{Str, str, str_eq, split_once}
use email_security_gateway.Text.Decimal.{read_int, show_int}
use email_security_gateway.Storage
use email_security_gateway.Storage.{Store}

abbrev pub min : ℕ → ℕ → ℕ
min a b = if ltb b a then b else a

-- An age in days, None, or the ValueError of `int(cached)`
pub data Age : Type 0 where
  days : Option ℤ → Age
  value_error : Age

abbrev pub age_key : Str → Str
age_key domain = str "domain_age:" ++ domain

abbrev pub read_age : Option ℤ → Age
read_age none = value_error
read_age (some n) = days (some n)

abbrev pub cached_age : Str → Age
cached_age cached = if is_empty cached then days none else read_age (read_int cached)

-- The text and the time to live of an answer; a failed lookup is kept for five minutes at most.
abbrev pub age_text : Option ℕ → Str
age_text none = []
age_text (some n) = show_int (pos n)

abbrev pub age_ttl : ℕ → Option ℕ → ℕ
age_ttl ttl_seconds none = min 300 ttl_seconds
age_ttl ttl_seconds (some n) = ttl_seconds

abbrev pub age_of : Option ℕ → Age
age_of none = days none
age_of (some n) = days (some (pos n))

abbrev pub age_answered : ℕ → ℕ → Str → (Str → Option ℕ) → Option Str × Store → Age × Store
age_answered ttl_seconds now domain wrapped (some cached, s) = (cached_age cached, s)
age_answered ttl_seconds now domain wrapped (none, s) =
    let result = wrapped domain in
    (
      age_of result,
      Storage.set now (age_key domain) (age_text result) (some (age_ttl ttl_seconds result)) s,
    )

unfoldable pub get_domain_age_days : ℕ → ℕ → Str → (Str → Option ℕ) → Store → Age × Store
get_domain_age_days ttl_seconds now domain wrapped s =
    age_answered ttl_seconds now domain wrapped (Storage.get now (age_key domain) s)

abbrev pub reputation_key : Str → Str
reputation_key url = str "url_reputation:" ++ url

-- `cached.partition("\x00")`, with " (cached)" behind the source
abbrev pub partitioned : Str → Option (Str × Str) → Str × Str
partitioned cached none = (cached, str " (cached)")
partitioned cached (some (verdict, source)) = (verdict, source ++ str " (cached)")

abbrev pub reputation_ttl : ℕ → Str → ℕ
reputation_ttl ttl_seconds verdict =
    if verdict == str "unknown" then min 120 ttl_seconds else ttl_seconds

abbrev pub reputation_answered :
    ℕ → ℕ → Str → (Str → Str × Str) → Option Str × Store → (Str × Str) × Store
reputation_answered ttl_seconds now url wrapped (some cached, s) =
    (partitioned cached (split_once 0 cached), s)
reputation_answered ttl_seconds now url wrapped (none, s) =
    let (verdict, source) = wrapped url in
    (
      (verdict, source),
      Storage.set now (reputation_key url) (verdict ++ 0 ∷ source)
          (some (reputation_ttl ttl_seconds verdict)) s,
    )

unfoldable pub check_url : ℕ → ℕ → Str → (Str → Str × Str) → Store → (Str × Str) × Store
check_url ttl_seconds now url wrapped s =
    reputation_answered ttl_seconds now url wrapped (Storage.get now (reputation_key url) s)
