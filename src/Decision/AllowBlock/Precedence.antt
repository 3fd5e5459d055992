-- ===== src/Decision/AllowBlock/Precedence.antt =====
-- Which senders the lists block and allow.
use email_security_gateway.Prelude.{Bool, false, ◌&&◌, ◌||◌, not, List, ◌≡◌, arith, is_empty}
use email_security_gateway.Text.{Str, str_eq}
use email_security_gateway.Ip.{IpAddress}
use email_security_gateway.Decision.AllowBlock.{
  AllowBlockEngine, Sender, sender_of, ip_matches, check_allow, check_lists, evaluate, listed,
}

module _ (ip : IpAddress) where
  -- The sender is on one of three lists: of addresses, of domains, of IP addresses and networks.
  abbrev pub is_on : Sender → List Str → List Str → List Str → Bool
  is_on s emails domains ips =
      listed s.envelope_from_clean emails
      || listed s.header_email emails
      || listed s.env_domain domains
      || listed s.header_domain domains
      || not (is_empty s.client_ip) && ip_matches ip s.client_ip ips

  check_allow_lem :
      (e : AllowBlockEngine) (s : Sender)
      → ((check_allow ip e s).is_blocked ≡ false)
        × ((check_allow ip e s).is_allowed ≡ is_on s e.allow_emails e.allow_domains e.allow_ips)
  unfolding check_allow
  check_allow_lem e s = ground arith

  -- A sender is blocked exactly when the envelope sender, the address in the From header, one of
  -- their domains or the client's IP is on a block list, and allowed exactly when it is not blocked
  -- and one of them is on an allow list.
  pub evaluate_precedence :
      (e : AllowBlockEngine) (envelope_from client_ip from_header : Str)
      → let s = sender_of envelope_from client_ip from_header in
        let r = evaluate ip e envelope_from client_ip from_header in
        let on_block = is_on s e.block_emails e.block_domains e.block_ips in
        (r.is_blocked ≡ on_block)
        × (r.is_allowed ≡ (not on_block && is_on s e.allow_emails e.allow_domains e.allow_ips))
  unfolding evaluate check_lists
  evaluate_precedence e envelope_from client_ip from_header =
      ground (arith, check_allow_lem e (sender_of envelope_from client_ip from_header))
