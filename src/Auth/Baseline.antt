-- ===== src/Auth/Baseline.antt =====
-- auth_checker/sender_baseline.py: the history of each sending domain.
pub mod History
use email_security_gateway.Prelude.{
  ℕ, suc, Bool, true, false, ◌&&◌, ◌||◌, not, Option, none, some, List, [], ◌∷◌, ◌++◌, is_empty,
  leb, eqb, if◌then◌else◌,
}
use email_security_gateway.Int.{ℤ, pos}
use email_security_gateway.Dict
use email_security_gateway.Dict.{Dict}
use email_security_gateway.Text.{Str, str, str_eq, lower, member}
use email_security_gateway.Ip.{IpAddress}

pub record DomainHistory : Type 0 where
  pub first_seen : ℕ
  pub count : ℕ
  pub subnets : List Str

abbrev pub SenderBaselineStore : Type 0
SenderBaselineStore = Dict Str DomainHistory

pub record SenderBaselineVerdict : Type 0 where
  pub is_first_contact : Bool
  pub is_ip_anomaly : Bool
  pub total_messages_seen : ℕ
  pub score_delta : ℤ
  pub explanation : Str

abbrev or_new : Option DomainHistory → DomainHistory
or_new none = record { first_seen = 0; count = 0; subnets = [] }
or_new (some h) = h

-- `get_domain_history` of a domain in lower case
unfoldable pub get_domain_history : Str → SenderBaselineStore → DomainHistory
get_domain_history domain s = or_new (Dict.get s (lower domain))

abbrev network_or_empty : (ip : IpAddress) → Option ip.Network → Str
network_or_empty ip none = []
network_or_empty ip (some n) = ip.network_text n

abbrev subnet_of : (ip : IpAddress) → Str → Option ip.Address → Str
subnet_of ip ip_str none = []
subnet_of ip ip_str (some a) =
    network_or_empty ip (ip.ip_network (ip_str ++ (if ip.is_v4 a then str "/24" else str "/48")))

-- `_get_subnet`: the empty text for what is no address
unfoldable pub get_subnet : IpAddress → Str → Str
get_subnet ip ip_str = subnet_of ip ip_str (ip.ip_address ip_str)

-- A set keeps one copy.
abbrev add_subnet : Str → List Str → List Str
add_subnet n ns = if is_empty n || member n ns then ns else ns ++ n ∷ []

abbrev bump_history : ℕ → Str → Option DomainHistory → DomainHistory
bump_history now subnet none = record {
  first_seen = now;
  count = 1;
  subnets = add_subnet subnet [];
}
bump_history now subnet (some h) = record h {
  count = suc h.count;
  subnets = add_subnet subnet h.subnets;
}

unfoldable pub record_message :
    IpAddress → ℕ → Str → Str → SenderBaselineStore → SenderBaselineStore
record_message ip now domain client_ip s =
    let d = lower domain in Dict.put s d (bump_history now (get_subnet ip client_ip) (Dict.get s d))

established : Str
established = str "Established sender within baseline parameters"

anomaly : Str → Str → Str
anomaly subnet domain =
    str "Sender IP anomaly: subnet " ++ subnet ++ str " not in baseline subnets for " ++ domain

is_anomalous : DomainHistory → Str → Bool
is_anomalous h subnet = leb 10 h.count && not (is_empty subnet) && not (member subnet h.subnets)

judge : Str → DomainHistory → Str → SenderBaselineVerdict
unfolding is_anomalous anomaly established
judge domain h subnet =
    let first = eqb h.count 0 in
    let strange = not first && is_anomalous h subnet in
    record {
      is_first_contact = first;
      is_ip_anomaly = strange;
      total_messages_seen = suc h.count;
      score_delta = if first || strange then pos 10 else pos 0;
      explanation =
          if first
          then str "First contact domain (no prior sending history)"
          else if strange
          then anomaly subnet domain
          else established;
    }

no_domain : SenderBaselineVerdict
no_domain = record {
  is_first_contact = false;
  is_ip_anomaly = false;
  total_messages_seen = 0;
  score_delta = pos 0;
  explanation = str "No domain provided for baseline evaluation";
}

unfoldable pub evaluate_sender_baseline :
    IpAddress → ℕ → Str → Str → SenderBaselineStore → SenderBaselineVerdict × SenderBaselineStore
unfolding judge no_domain is_anomalous anomaly established
evaluate_sender_baseline ip now domain client_ip s = if is_empty domain then (no_domain, s) else (
  judge (lower domain) (get_domain_history (lower domain) s) (get_subnet ip client_ip),
  record_message ip now (lower domain) client_ip s,
)
