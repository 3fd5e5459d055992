-- ===== src/Content/VisualBrand.antt =====
-- content_analysis/visual_brand.py.
use email_security_gateway.Prelude.{
  ℕ, Bool, true, false, ◌||◌, ◌&&◌, not, List, [], ◌∷◌, ◌++◌, any, is_empty, if◌then◌else◌,
}
use email_security_gateway.Text.{Str, str, lower, to_upper, split, has_substring}

unfoldable pub protected_brands : List (Str × List Str)
protected_brands =
    (
      str "microsoft",
      str "microsoft online"
          ∷ str "sign in to your account"
          ∷ str "outlook365"
          ∷ str "office365"
          ∷ [],
    )
    ∷ (
      str "google",
      str "sign in - google accounts" ∷ str "google workspace" ∷ str "gmail login" ∷ [],
    )
    ∷ (str "docusign", str "docusign - view document" ∷ str "sign your document" ∷ [])
    ∷ (str "paypal", str "log in to your paypal account" ∷ str "paypal security alert" ∷ [])
    ∷ (str "apple", str "apple id login" ∷ str "sign in with apple id" ∷ [])
    ∷ []

pub record VisualBrandFinding : Type 0 where
  pub is_impersonating : Bool
  pub target_brand : Str
  pub score_delta : ℕ
  pub explanation : Str

abbrev pub no_brand : VisualBrandFinding
no_brand = record { is_impersonating = false; target_brand = []; score_delta = 0; explanation = [] }

-- `url.split("/")[2]`, which an absolute address has
abbrev pub third : List Str → Str
third (a ∷ b ∷ c ∷ parts) = c
third parts = []

unfoldable pub url_domain : Str → Str
url_domain url = if has_substring url (str "://") then lower (third (split b'/' url)) else lower url

abbrev pub capitalize : Str → Str
capitalize [] = []
capitalize (c ∷ s) = to_upper c ∷ lower s

abbrev pub impersonates : Str → Str → VisualBrandFinding
impersonates brand domain = record {
  is_impersonating = true;
  target_brand = capitalize brand;
  score_delta = 30;
  explanation =
      str "Visual brand impersonation detected for "
      ++ capitalize brand
      ++ str " on untrusted domain "
      ++ domain;
}

abbrev pub is_official : Str → Str → Bool
is_official domain brand =
    has_substring domain brand
    && (has_substring domain (brand ++ str ".com") || has_substring domain (brand ++ str ".net"))

-- A marker counts where the brand is not in the name of the domain.
unfoldable pub brand_loop : Str → Str → List (Str × List Str) → VisualBrandFinding
brand_loop content domain [] = no_brand
brand_loop content domain ((brand, markers) ∷ brands) =
    let rest = brand_loop content domain brands in
    if is_official domain brand
    then rest
    else if any (has_substring content) markers && not (has_substring domain brand)
    then impersonates brand domain
    else rest

unfoldable pub check_visual_brand_impersonation : Str → Str → VisualBrandFinding
unfolding brand_loop protected_brands url_domain
check_visual_brand_impersonation url html =
    if is_empty html && is_empty url
    then no_brand
    else brand_loop (lower (html ++ str " " ++ url)) (url_domain url) protected_brands
