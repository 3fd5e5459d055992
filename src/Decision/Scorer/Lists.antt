-- ===== src/Decision/Scorer/Lists.antt =====
-- The allow and block lists and the scorer together: what being on a list does to a message.
use email_security_gateway.Prelude.{◌≡◌, ◌∙◌, true, some}
use email_security_gateway.Int.{◌≤ℤ◌}
use email_security_gateway.Text.{Str}
use email_security_gateway.Ip.{IpAddress}
use email_security_gateway.Decision.Models.{quarantine, RoutingDecision}
use email_security_gateway.Decision.TenantConfig.{Weights}
use email_security_gateway.Decision.AllowBlock.{AllowBlockEngine, evaluate, sender_of}
use email_security_gateway.Decision.AllowBlock.Precedence.{is_on, evaluate_precedence}
use email_security_gateway.Decision.Scorer.{Request, effective_quarantine, total, decide}
use email_security_gateway.Decision.Scorer.Outcomes.{decide_blocked}

-- A message whose envelope sender, From address, one of their domains, or client IP is on a block list
-- is quarantined when the scorer gets the result of the lists, with a score at the threshold or above
-- and no less than the computed one, also when the message is on an allow list or clean.
pub blocked_is_quarantined :
    (ip : IpAddress) (w : Weights) (r : Request w) (e : AllowBlockEngine)
    (envelope_from client_ip from_header : Str) {d : RoutingDecision}
    → r.allow_block_result ≡ some (evaluate ip e envelope_from client_ip from_header)
    → is_on ip
        (sender_of envelope_from client_ip from_header)
        e.block_emails
        e.block_domains
        e.block_ips
      ≡ true
    → decide w r ≡ some d
    → (d.action ≡ quarantine)
      × (effective_quarantine w r ≤ℤ d.total_score)
      × (total w r ≤ℤ d.total_score)
blocked_is_quarantined ip w r e envelope_from client_ip from_header listed on h =
    decide_blocked w r (evaluate ip e envelope_from client_ip from_header) listed
      ((evaluate_precedence ip e envelope_from client_ip from_header).0 ∙ on) h
