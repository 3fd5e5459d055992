-- ===== src/Decision/AllowBlock.antt =====
-- decision_engine/allow_block.py: the allow and block lists, over `ipaddress`.
pub mod Precedence
use email_security_gateway.Prelude.{
  Bool, true, false, ◌&&◌, ◌||◌, not, Option, none, some, List, [], ◌∷◌, ◌++◌, map, filter,
  is_empty, leb, eqb, ℕ, ◌==◌, if◌then◌else◌,
}
use email_security_gateway.Text.{
  Str, str, str_eq, lower, strip, has_char, last_part, member, take_while, drop_while,
}
use email_security_gateway.Ip.{IpAddress}
use email_security_gateway.Decision.Models.{AllowBlockResult}

pub record AllowBlockEngine : Type 0 where
  pub allow_domains : List Str
  pub allow_emails : List Str
  pub allow_ips : List Str
  pub block_domains : List Str
  pub block_emails : List Str
  pub block_ips : List Str

not_empty : Str → Bool
not_empty s = not (is_empty s)

-- {d.lower().strip() for d in items if d}
clean : List Str → List Str
unfolding not_empty
clean items = map (λ d. strip (lower d)) (filter not_empty items)

unfoldable pub new :
    List Str → List Str → List Str → List Str → List Str → List Str → AllowBlockEngine
unfolding clean
new allow_domains allow_emails allow_ips block_domains block_emails block_ips = record {
  allow_domains = clean allow_domains;
  allow_emails = clean allow_emails;
  allow_ips = map strip (filter not_empty allow_ips);
  block_domains = clean block_domains;
  block_emails = clean block_emails;
  block_ips = map strip (filter not_empty block_ips);
}

-- The characters of `[\w\.-]`, in ASCII.
is_address_char : ℕ → Bool
is_address_char c =
    leb b'a' c && leb c b'z'
    || leb b'A' c && leb c b'Z'
    || leb b'0' c && leb c b'9'
    || eqb c b'_'
    || eqb c b'.'
    || eqb c b'-'

abbrev domain_of_match : Str → Str
domain_of_match [] = []
domain_of_match (c ∷ s) = if eqb c b'@' then take_while is_address_char s else []

-- The match of `[\w\.-]+@[\w\.-]+` that starts at the front of the text, or the empty text.
match_here : Str → Str
unfolding is_address_char
match_here s =
    let name = take_while is_address_char s in
    let domain = domain_of_match (drop_while is_address_char s) in
    if is_empty name || is_empty domain then [] else name ++ b'@' ∷ domain

-- `re.search`: the first place where the pattern matches.
unfoldable pub find_address : Str → Str
unfolding match_here
find_address [] = []
find_address (c ∷ s) =
    let rest = find_address s in
    let found = match_here (c ∷ s) in if is_empty found then rest else found

-- The texts that are looked up: the cleaned envelope sender and its domain, the address in the From
-- header and its domain, the client's IP.
pub record Sender : Type 0 where
  pub envelope_from : Str
  pub envelope_from_clean : Str
  pub env_domain : Str
  pub header_email : Str
  pub header_domain : Str
  pub client_ip : Str

unfoldable pub sender_of : Str → Str → Str → Sender
unfolding find_address
sender_of envelope_from client_ip from_header =
    let cleaned = strip (lower envelope_from) in
    let email = strip (lower (find_address from_header)) in
    record {
      envelope_from = envelope_from;
      envelope_from_clean = cleaned;
      env_domain = if has_char cleaned b'@' then last_part b'@' cleaned else [];
      header_email = email;
      header_domain = last_part b'@' email;
      client_ip = client_ip;
    }

-- `x and x in s`
abbrev listed : Str → List Str → Bool
listed x s = not (is_empty x) && member x s

module _ (ip : IpAddress) where
  open ip use {Address, Network, ip_address, ip_network, is_in, same}

  abbrev in_network : Address → Option Network → Bool
  in_network a none = false
  in_network a (some n) = is_in a n

  abbrev is_address : Address → Option Address → Bool
  is_address a none = false
  is_address a (some b) = same a b

  -- One entry of a list; a malformed one is skipped.
  abbrev entry_matches : Address → Str → Bool
  entry_matches a item =
      if has_char item b'/' then in_network a (ip_network item) else is_address a (ip_address item)

  any_entry : Address → List Str → Bool
  any_entry a [] = false
  any_entry a (item ∷ items) = entry_matches a item || any_entry a items

  abbrev target_matches : Option Address → List Str → Bool
  target_matches none items = false
  target_matches (some a) items = any_entry a items

  unfoldable pub ip_matches : Str → List Str → Bool
  unfolding any_entry
  ip_matches client_ip items =
      if is_empty client_ip || client_ip == str "0.0.0.0"
      then false
      else target_matches (ip_address client_ip) items

  abbrev blocked : Str → AllowBlockResult
  blocked reason = record { is_allowed = false; is_blocked = true; reason = reason }

  abbrev allowed : Str → AllowBlockResult
  allowed reason = record { is_allowed = true; is_blocked = false; reason = reason }

  quoted : Str → Str → Str → Str
  quoted what x where_listed = what ++ str " '" ++ x ++ str "' is in " ++ where_listed

  -- The five looks at the allow lists, and before them those at the block lists.
  unfoldable pub check_allow : AllowBlockEngine → Sender → AllowBlockResult
  unfolding quoted
  check_allow e s =
      if listed s.envelope_from_clean e.allow_emails
      then allowed (quoted (str "envelope-from") s.envelope_from (str "allowlist"))
      else if listed s.header_email e.allow_emails
      then allowed (quoted (str "From-header email") s.header_email (str "allowlist"))
      else if listed s.env_domain e.allow_domains
      then allowed (quoted (str "domain") s.env_domain (str "allowlist"))
      else if listed s.header_domain e.allow_domains
      then allowed (quoted (str "From-header domain") s.header_domain (str "allowlist"))
      else if not (is_empty s.client_ip) && ip_matches s.client_ip e.allow_ips
      then allowed (quoted (str "client IP") s.client_ip (str "allowlist"))
      else record { is_allowed = false; is_blocked = false; reason = [] }

  unfoldable pub check_lists : AllowBlockEngine → Sender → AllowBlockResult
  unfolding check_allow
  check_lists e s =
      if listed s.envelope_from_clean e.block_emails
      then blocked (quoted (str "envelope-from") s.envelope_from (str "blocklist"))
      else if listed s.header_email e.block_emails
      then blocked (quoted (str "From-header email") s.header_email (str "blocklist"))
      else if listed s.env_domain e.block_domains
      then blocked (quoted (str "domain") s.env_domain (str "blocklist"))
      else if listed s.header_domain e.block_domains
      then blocked (quoted (str "From-header domain") s.header_domain (str "blocklist"))
      else if not (is_empty s.client_ip) && ip_matches s.client_ip e.block_ips
      then blocked (quoted (str "client IP") s.client_ip (str "blocklist"))
      else check_allow e s

  unfoldable pub evaluate : AllowBlockEngine → Str → Str → Str → AllowBlockResult
  unfolding check_lists sender_of
  evaluate e envelope_from client_ip from_header =
      check_lists e (sender_of envelope_from client_ip from_header)
