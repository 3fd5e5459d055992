-- ===== src/Decision/TenantConfig.antt =====
-- decision_engine/tenant_config.py: per-tenant thresholds and stage weights. A weight is a float:
-- the type, `1.0` and `int(score * weight)` are parameters.
use email_security_gateway.Prelude.{
  Bool, true, false, Option, none, some, [], ◌∷◌, ◌≡◌, is_empty, if◌then◌else◌,
}
use email_security_gateway.Int.{ℤ}
use email_security_gateway.Dict
use email_security_gateway.Dict.{Dict}
use email_security_gateway.Text.{Str, str, str_eq}

-- Floating-point weights. `scale d w` is `int(d * w)`; by 1.0 it is the score itself.
pub record Weights : Type 1 where
  pub Weight : Type 0
  pub one : Weight
  pub scale : ℤ → Weight → ℤ
  pub scale-one : (d : ℤ) → scale d one ≡ d

module _ (w : Weights) where
  open w use {Weight, one}

  pub record TenantConfig : Type 0 where
    pub tenant_id : Str
    pub warn_threshold : ℤ
    pub quarantine_threshold : ℤ
    pub stage_weights : Dict Str Weight
    pub vip_protection_enabled : Bool
    pub shadow_mode_enabled : Bool

  abbrev pub default_weights : Dict Str Weight
  default_weights = (str "auth", one) ∷ (str "content", one) ∷ (str "attachments", one) ∷ []

  abbrev pub TenantConfigStore : Type 0
  TenantConfigStore = Dict Str TenantConfig

  unfoldable pub set_config : TenantConfig → TenantConfigStore → TenantConfigStore
  set_config config s = Dict.put s config.tenant_id config

  abbrev or_default : Str → Str
  or_default tenant_id = if is_empty tenant_id then str "default" else tenant_id

  -- The thresholds of the settings for a tenant that has no configuration of its own.
  abbrev fallback : ℤ → ℤ → Str → TenantConfig
  fallback warn quarantine_at tenant_id = record {
    tenant_id = or_default tenant_id;
    warn_threshold = warn;
    quarantine_threshold = quarantine_at;
    stage_weights = default_weights;
    vip_protection_enabled = true;
    shadow_mode_enabled = false;
  }

  abbrev found_or : TenantConfig → Option TenantConfig → TenantConfig
  found_or d none = d
  found_or d (some c) = c

  -- `tenant_id` is the empty text for Python's None, which the code treats alike.
  unfoldable pub get_config : ℤ → ℤ → Str → TenantConfigStore → TenantConfig
  get_config warn quarantine_at tenant_id s =
      if is_empty tenant_id
      then fallback warn quarantine_at tenant_id
      else found_or (fallback warn quarantine_at tenant_id) (Dict.get s tenant_id)
