-- ===== src/Delivery/Expiry.antt =====
-- What expire_pending of tools/peer_mesh_delivery.py leaves pending.
-- The delivery is not pending, or its expiry is still ahead of `now`.
use mathlib.Core.Path.{subst}
use quest_termux_lab.Base.{
  All, Bool, List, Option, String, [], ap, false, if◌then◌else◌, length, refl, some, suc, sym, true,
  ◌∙◌, ◌∷◌, ◌≡◌,
}
use quest_termux_lab.Delivery.Update.{
  expire_one, expire_overdue, expire_pending, mark_expired, refresh_summary, summarize,
}
use quest_termux_lab.Delivery.Validate.{validate_state}
use quest_termux_lab.Gossip.Envelope.{parse_time}
use quest_termux_lab.Py.Dict.{get, get?, get?-put, item, item-eq-ok, list_of, put}
use quest_termux_lab.Py.Result.{map_ok, ok, ok-injective, on_ok}
use quest_termux_lab.Py.Stdlib.{Stdlib, or_text, text_of}
use quest_termux_lab.Py.Time.{DateTime, at_most}
use quest_termux_lab.Py.Value.{Fields, Value, array, is_text, obj, str}

pub data Settled (lib : Stdlib) (now : DateTime) : Value → Type 0 where
  not_pending : (d : Fields) → is_text (get d "state") "pending" ≡ false → Settled lib now (obj d)
  ahead :
      (d : Fields) (expires : Value) (expires_at : DateTime)
      → get? d "expires_at" ≡ some expires
      → parse_time lib (text_of lib expires) ≡ ok expires_at
      → at_most expires_at now ≡ ok false
      → Settled lib now (obj d)

-- The state after an expiry, with its deliveries.
pub record IsExpired (lib : Stdlib) (now : DateTime) (state expired : Fields) : Type 0 where
  pub stored : Value
  pub before : List Value
  pub given : get? state "deliveries" ≡ some stored
  pub held : list_of stored ≡ ok before
  pub after : List Value
  pub listed : get? expired "deliveries" ≡ some (array after)
  pub settled : All (Settled lib now) after
  pub count : length after ≡ length before

module _ (lib : Stdlib) (now : DateTime) where
  mark_expired-Settled : (d : Fields) → Settled lib now (obj (mark_expired d))
  unfolding mark_expired
  mark_expired-Settled d = not_pending _ (rw (get?-put, get?-put, get?-put, get?-put) refl)

  overdue_cases :
      (d : Fields) (expires : Value) (expires_at : DateTime) (past : Bool)
      → item d "expires_at" ≡ ok expires
      → parse_time lib (text_of lib expires) ≡ ok expires_at
      → at_most expires_at now ≡ ok past
      → Settled lib now (obj (if past then mark_expired d else d))
  overdue_cases d expires expires_at true e parsed late = mark_expired-Settled d
  overdue_cases d expires expires_at false e parsed late =
      ahead d expires expires_at (item-eq-ok d "expires_at" expires e) parsed late

  expire_overdue-Settled :
      (d : Fields) (w : Value) → expire_overdue lib now d ≡ ok w → Settled lib now w
  unfolding expire_overdue
  expire_overdue-Settled d w h = on_ok (item d "expires_at") h λ expires e h1.
      on_ok (parse_time lib (text_of lib expires)) h1 λ expires_at parsed h2.
        on_ok (at_most expires_at now) h2 λ past late h3.
          subst (Settled lib now) (ok-injective h3)
            (overdue_cases d expires expires_at past e parsed late)

  pending_cases :
      (d : Fields) (w : Value) (b : Bool)
      → is_text (get d "state") "pending" ≡ b
      → (if b then expire_overdue lib now d else ok (obj d)) ≡ ok w
      → Settled lib now w
  pending_cases d w true e h = expire_overdue-Settled d w h
  pending_cases d w false e h = subst (Settled lib now) (ok-injective h) (not_pending d e)

  expire_one-Settled : (v w : Value) → expire_one lib now v ≡ ok w → Settled lib now w
  unfolding expire_one
  expire_one-Settled (obj d) w h = pending_cases d w (is_text (get d "state") "pending") refl h
  expire_one-Settled _ w h = absurd (cc h)

  map_ok-Settled :
      (vs ws : List Value)
      → map_ok (expire_one lib now) vs ≡ ok ws
      → All (Settled lib now) ws × (length ws ≡ length vs)
  map_ok-Settled [] ws h =
      subst (λ l. All (Settled lib now) l × (length l ≡ 0)) (ok-injective h) (tt, refl)
  map_ok-Settled (v ∷ vs) ws h = on_ok (expire_one lib now v) h λ w e h1.
      on_ok (map_ok (expire_one lib now) vs) h1 λ rest k h2.
        let (settled, count) = map_ok-Settled vs rest k in
        subst (λ l. All (Settled lib now) l × (length l ≡ suc (length vs))) (ok-injective h2)
          ((expire_one-Settled v w e, settled), ap suc count)

module _ (lib : Stdlib) (clock : String) where
  refresh_summary-deliveries :
      (state refreshed : Fields) (observed_at : Option String)
      → refresh_summary lib clock state observed_at ≡ ok refreshed
      → get? refreshed "deliveries" ≡ get? state "deliveries"
  unfolding refresh_summary
  refresh_summary-deliveries state refreshed observed_at h =
      on_ok (validate_state state) h λ _ _ h1.
        on_ok (summarize lib (put state "observed_at" (str (or_text observed_at clock)))) h1
          λ counts _ h2.
            ap (λ d. get? d "deliveries") (sym (ok-injective h2))
            ∙ get?-put _ "summary" "deliveries" _
            ∙ get?-put state "observed_at" "deliveries" _

  -- If expire_pending returns, the time that it was given parses, the state that it returns has as
  -- many deliveries as the given one, and each that is still pending has an expiry ahead of that
  -- time.
  pub expire_pending-IsExpired :
      (state expired : Fields) (now_text : Option String)
      → expire_pending lib clock state now_text ≡ ok expired
      → (now : DateTime) × (parse_time lib (or_text now_text clock) ≡ ok now)
        × IsExpired lib now state expired
  unfolding expire_pending
  expire_pending-IsExpired state expired now_text h = on_ok (validate_state state) h λ _ _ h1.
      on_ok (parse_time lib (or_text now_text clock)) h1 λ now read h2.
        on_ok (refresh_summary lib clock state (some (lib.isoformat now))) h2 λ updated fresh h3.
          on_ok (item updated "deliveries") h3 λ found there h4.
            on_ok (list_of found) h4 λ deliveries listed h5.
              on_ok (map_ok (expire_one lib now) deliveries) h5 λ after made h6. (
                now,
                read,
                record {
                  before = deliveries;
                  after = after;
                  stored = found;
                  given =
                      sym
                        (refresh_summary-deliveries state updated (some (lib.isoformat now)) fresh)
                      ∙ item-eq-ok updated "deliveries" found there;
                  held = listed;
                  listed =
                      refresh_summary-deliveries (put updated "deliveries" (array after)) expired
                        (some (lib.isoformat now)) h6
                      ∙ get?-put updated "deliveries" "deliveries" (array after);
                  settled = (map_ok-Settled lib now deliveries after made).0;
                  count = (map_ok-Settled lib now deliveries after made).1;
                },
              )
