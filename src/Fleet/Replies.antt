-- ===== src/Fleet/Replies.antt =====
-- The replies and the readings of the controller of tools/fleet_control_plane.py leave the queues, the
-- keys and the leases alone.
use quest_termux_lab.Base.{Option, String, none, some, ℕ}
use quest_termux_lab.Fleet.Keeps.{Keeps, Quiet, keeps, lift-Keeps, pure-Keeps}
use quest_termux_lab.Fleet.Quiet.{response-Keeps, utc_now-Keeps}
use quest_termux_lab.Fleet.Report.{
  found_intent, mirror_intent_status, mirror_session_events, summary,
}
use quest_termux_lab.Fleet.Session.{reply, reply_with, send_error}
use quest_termux_lab.Fleet.State.{Env, FleetState}
use quest_termux_lab.Py.Result.{Result, err, key_error, ok, overflow_error, type_error, value_error}
use quest_termux_lab.Py.Value.{Fields}

module _ (env : Env) {P : FleetState → Type 0} (quiet : Quiet P) where
  reply_with-kept :
      (status : ℕ) (r : Result Fields × FleetState) → P r.1 → P (reply_with status r).1
  reply_with-kept status (ok body, s) p = p
  reply_with-kept status (err e, s) p = p

  send_error-kept :
      (status : ℕ) (message : String) (s : FleetState) → P s → P (send_error env status message s).1
  unfolding send_error
  send_error-kept status message s p =
      reply_with-kept status _ ((response-Keeps env quiet "error" _).run s p)

  pub reply-kept :
      (status : Option ℕ) (r : Result Fields) (s : FleetState) → P s → P (reply env status r s).1
  unfolding reply
  reply-kept status (ok body) s p = p
  reply-kept (some status) (err (value_error message)) s p = send_error-kept status message s p
  reply-kept none (err (value_error message)) s p = p
  reply-kept none (err (key_error key)) s p = p
  reply-kept none (err type_error) s p = p
  reply-kept none (err overflow_error) s p = p
  reply-kept (some status) (err (key_error key)) s p = p
  reply-kept (some status) (err type_error) s p = p
  reply-kept (some status) (err overflow_error) s p = p

  found_intent-Keeps : (o : Option Fields) → Keeps P (found_intent env o)
  unfolding found_intent
  found_intent-Keeps none = lift-Keeps _
  found_intent-Keeps (some status) = pure-Keeps status

  pub summary-Keeps : Keeps P (summary env)
  unfolding summary
  summary-Keeps = search (keeps, utc_now-Keeps) depth 12

  pub mirror_intent_status-Keeps : (id : String) → Keeps P (mirror_intent_status env id)
  unfolding mirror_intent_status
  mirror_intent_status-Keeps id = search (keeps, found_intent-Keeps) depth 12

  pub mirror_session_events-Keeps : (id : String) → Keeps P (mirror_session_events env id)
  unfolding mirror_session_events
  mirror_session_events-Keeps id = search (keeps, utc_now-Keeps) depth 12
