-- ===== src/Delivery/Relay.antt =====
-- delivery/relay.py: the relay to the destination server, through `with_retry`. What one call of
-- `aiosmtplib.send` does is a parameter: it depends on the transmission and on the number of the attempt.
-- As in the source, the recipients that a server refuses while it accepts others are not looked at. An
-- attempt that raises is one that the server has not accepted: a timeout after it did is left out.
use email_security_gateway.Prelude.{ℕ, Option, none, some, List, ◌++◌}
use email_security_gateway.Text.{Str, str}
use email_security_gateway.Text.Decimal.{show_nat}
use email_security_gateway.Resilience.Retry.{
  Attempt, RetryPolicy, Retried, returned, raised, exhausted, with_retry,
}

pub record Transmission : Type 0 where
  pub raw_message : Str
  pub mail_from : Str
  pub rcpt_to : List Str

-- An exception of the mail library: SMTPResponseException with its code and message, or another one,
-- with its text.
pub data Fault : Type 0 where
  response : ℕ → Str → Fault
  another : Str → Fault

-- The TLS settings, the credentials and the timeout only go to the mail library: they are part of
-- `transmit`.
pub record SmtpRelay : Type 0 where
  pub host : Str
  pub port : ℕ
  pub max_attempts : ℕ
  pub backoff_base : ℕ
  -- the default `max_delay` of `with_retry`, 5 seconds in the time unit
  pub max_delay : ℕ
  pub jitter : ℕ → ℕ
  pub transmit : Transmission → ℕ → Attempt Fault Unit

-- `send` returns, raises RelayError with a text, or lets another exception through.
pub data SendResult : Type 0 where
  sent : SendResult
  relay_error : Str → SendResult
  raises : Fault → SendResult

unfoldable pub fault_text : Fault → Str
fault_text (response code message) = show_nat code ++ str " " ++ message
fault_text (another message) = message

abbrev last_text : Option Fault → Str
last_text none = str "None"
last_text (some f) = fault_text f

abbrev pub send_result : SmtpRelay → Retried Fault Unit → SendResult
send_result relay (returned u) = sent
send_result relay (raised (response code message)) =
    relay_error
      (str "destination server rejected the message: " ++ fault_text (response code message))
send_result relay (raised (another message)) = raises (another message)
send_result relay (exhausted n last) = relay_error (
    str "failed to relay to "
    ++ relay.host
    ++ str ":"
    ++ show_nat relay.port
    ++ str " after retries: "
    ++ last_text last)

abbrev pub policy_of : SmtpRelay → RetryPolicy
policy_of relay = record {
  max_attempts = relay.max_attempts;
  base_delay = relay.backoff_base;
  max_delay = relay.max_delay;
}

unfoldable pub send : SmtpRelay → Transmission → SendResult
send relay m = send_result relay (with_retry (policy_of relay) (relay.transmit m) relay.jitter).0
