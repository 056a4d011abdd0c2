-- ===== src/Alerts/ServiceTests.antt =====
-- Examples of requests on alerts
-- (backend/src/modules/alerts/alerts.service.ts).
use rolebrief.Common.{false, none, List, [], ◌∷◌, String, ◌≡◌, refl, arith}
use rolebrief.Alerts.Types.{Alert, paused, both, immediate}
use rolebrief.Alerts.Service.{Alerts, CreateAlert, commit_alert}
use rolebrief.Alerts.Service.Limit.{
  AlertRequest, creates, pauses_alert, deletes_alert, serve_all, IsLimited,
}
use rolebrief.Alerts.Service.Limited.{serve_all-IsLimited}
use rolebrief.Alerts.Service.Revisions.{is_served, commit_alert_once}
use rolebrief.Alerts.EvaluationTests.{alert}

abbrev same_text : String → String
same_text s = s

abbrev new_alert : CreateAlert
new_alert = record {
  name = "Remote work";
  channel = both;
  cadence = immediate;
  delivery_hour_utc = none;
  delivery_day_of_week = none;
  criteria = (alert 1 []).criteria;
}

abbrev no_alerts : Alerts
no_alerts = record { rows = []; next_id = 0 }

abbrev requests : List AlertRequest
requests = creates 7 new_alert ∷ creates 7 new_alert ∷ pauses_alert 7 1 0 ∷ deletes_alert 7 0 ∷ []

serve_all-IsLimited_example : IsLimited (serve_all same_text requests no_alerts).rows
serve_all-IsLimited_example =
    serve_all-IsLimited same_text requests no_alerts
      (record { in_use = tt; few = λ user. omega arith })

abbrev one_alert : Alerts
one_alert = record { rows = alert 1 [] ∷ []; next_id = 2 }

abbrev renamed : Alert → Alert
renamed a = record a { name = "Any work" }

abbrev halted : Alert → Alert
halted a = record a { status = paused }

commit_alert_once_example :
    (is_served
        (commit_alert 0 halted (alert 1 []) (commit_alert 0 renamed (alert 1 []) one_alert).1).0
      ≡ false)
    × ((commit_alert 0 halted (alert 1 []) (commit_alert 0 renamed (alert 1 []) one_alert).1).1
        ≡ (commit_alert 0 renamed (alert 1 []) one_alert).1)
unfolding commit_alert
commit_alert_once_example =
    commit_alert_once 0 renamed halted (alert 1 []) (alert 1 []) one_alert refl refl
