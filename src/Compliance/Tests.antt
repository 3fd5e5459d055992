-- ===== src/Compliance/Tests.antt =====
-- Runs of the purge and of an erasure.
use email_security_gateway.Prelude.{
  ◌≡◌, refl, true, not, some, [], ◌∷◌, filter, map, Any, length, arith, inl, inr, if◌then◌else◌,
}
use email_security_gateway.Dict
use email_security_gateway.Text.{str, str_eq, str_beq, lower, to_lower, strip}
use email_security_gateway.Compliance.Holds.{Holds, LegalHoldRecord, covers, is_held, the_address}
use email_security_gateway.Compliance.Retention.{
  Item, QuarantineRepository, RetentionPolicy, RawFile, at, item_expired, item_held,
  purge_quarantine_store, purge_items, purge_item, without,
}
use email_security_gateway.Compliance.Gdpr.{erase_subject_data}
use email_security_gateway.Compliance.Sweep.{AreDistinct}
use email_security_gateway.Compliance.Laws.{is_due, purge_quarantine_store_lem, hold_protects}
use email_security_gateway.Compliance.Erasure.{
  is_party, file_stays, line_after, erase_subject_data_lem,
}

abbrev old : Item
old = record {
  timestamp = at 10;
  message_id = str "m1";
  quarantine_id = str "1";
  tenant_id = [];
  sender = str "a@x.test";
  recipient = str "b@y.test";
}

abbrev held : Item
held = record old { quarantine_id = str "2"; sender = str "C@X.test" }

abbrev stored : QuarantineRepository
stored = record { lists_all = true; deletes = true; items = old ∷ held ∷ [] }

stored-AreDistinct : AreDistinct stored.items
stored-AreDistinct = (((λ e. ground arith), tt), (tt, tt))

abbrev one_day : RetentionPolicy
one_day = record {
  quarantine_retention_days = 1;
  raw_mail_retention_days = 1;
  audit_log_retention_days = 1;
}

abbrev litigation : LegalHoldRecord
litigation = record {
  hold_id = str "h";
  target_type = str "email";
  target_value = str "c@x.test";
  reason = [];
  created_at = 5;
  created_by = str "legal";
}

abbrev books : Holds
books = (str "h", litigation) ∷ []

purge_quarantine_store_lem_example : purge_quarantine_store books one_day 90000 stored ≡ (
  length (filter (is_due books one_day 90000) stored.items),
  record stored { items = filter (λ j. not (is_due books one_day 90000 j)) stored.items },
)
purge_quarantine_store_lem_example =
    purge_quarantine_store_lem books one_day 90000 stored refl refl stored-AreDistinct

purge_runs : (purge_quarantine_store books one_day 90000 stored).0 ≡ 1
unfolding purge_quarantine_store purge_items purge_item item_expired item_held is_held covers
    str_beq lower to_lower without
purge_runs = refl

hold_protects_example :
    Any (λ j. j ≡ held) (purge_quarantine_store books one_day 90000 stored).1.items
unfolding Dict.get covers str_beq lower to_lower
hold_protects_example =
    hold_protects books one_day 90000 stored held (str "h") litigation stored-AreDistinct
      (inr (inl refl)) refl refl

abbrev letter : RawFile
letter = record {
  name = str "m1.eml";
  mtime = 10;
  content = str "From: A@x.test";
  removable = true;
}

erase_subject_data_lem_example :
    (erase_subject_data books (str " A@x.test") (record {
      quarantine = some stored;
      raw_mail = some (letter ∷ []);
      audit_log = some (str "a@x.test sent" ∷ []);
    })).1
    ≡ (if is_held books (the_address (strip (lower (str " A@x.test"))))
        then record {
          quarantine = some stored;
          raw_mail = some (letter ∷ []);
          audit_log = some (str "a@x.test sent" ∷ []);
        }
        else record {
          quarantine = some (record stored {
            items = filter (λ j. not (is_party (strip (lower (str " A@x.test"))) j)) stored.items;
          });
          raw_mail = some (filter (file_stays (strip (lower (str " A@x.test")))) (letter ∷ []));
          audit_log =
              some (map (line_after (strip (lower (str " A@x.test")))) (str "a@x.test sent" ∷ []));
        })
erase_subject_data_lem_example =
    erase_subject_data_lem books (str " A@x.test") stored (letter ∷ []) (str "a@x.test sent" ∷ [])
      refl refl stored-AreDistinct
