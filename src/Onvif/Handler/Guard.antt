-- ===== src/Onvif/Handler/Guard.antt =====
-- pkg/onvif/handler.go: what a client without credentials gets.
use nanit_onvif.Prelude.{
  ℕ, true, false, Option, none, some, ◌≡◌, refl, inl, inr, ◌⊎◌, Bool-cases, Option-cases, Text,
  eqb_text, eqb_text_iff,
}
use nanit_onvif.Onvif.Events.{EventManager}
use nanit_onvif.Onvif.Soap.{get_request_action}
use nanit_onvif.Onvif.Security.{is_empty, validate_ws_security_auth, validate_basic_auth}
use nanit_onvif.Onvif.Subscriptions.{World}
use nanit_onvif.Onvif.Handler.{
  ServerConfig, Reply, bad_request, auth_fault, unauthorized, not_found, static_response,
  auth_required, date_and_time, is_authorized, handle, on_action, handle_snapshot, Route, service,
  events_service, subscription, snapshot, elsewhere, Request, serve,
}

-- What tells nothing of the babies: refusals, and the time of day.
abbrev pub IsPublic : Reply → Type 0
IsPublic r =
    (r ≡ bad_request)
    ⊎ ((r ≡ auth_fault)
        ⊎ ((r ≡ unauthorized) ⊎ ((r ≡ not_found) ⊎ (r ≡ static_response date_and_time))))

date_and_time_reply :
    (c : ServerConfig) (uuid host body : Text)
    → on_action c uuid host body date_and_time ≡ static_response date_and_time
unfolding on_action
date_and_time_reply c uuid host body = refl

handled_time :
    (c : ServerConfig) (uuid host body : Text)
    → is_empty (get_request_action body) ≡ false
    → eqb_text (get_request_action body) date_and_time ≡ true
    → handle c uuid host body ≡ static_response date_and_time
unfolding handle
handled_time c uuid host body asked time =
    rw (handle, asked, time, (eqb_text_iff (get_request_action body) date_and_time).0 time)
      (date_and_time_reply c uuid host body)

refused :
    (c : ServerConfig) (body : Text)
    → auth_required c ≡ true
    → validate_ws_security_auth c.codecs body c.username c.password ≡ false
    → is_authorized c body ≡ false
refused c body on no_header = rw (on) no_header

handle-IsPublic :
    (c : ServerConfig) (uuid host body : Text)
    → is_authorized c body ≡ false
    → IsPublic (handle c uuid host body)
unfolding handle
handle-IsPublic c uuid host body refused = elim (Bool-cases (is_empty (get_request_action body))) [
  | inl nothing ↦ inl (rw (handle, nothing) refl)
  | inr asked ↦ elim (Bool-cases (eqb_text (get_request_action body) date_and_time)) [
    | inl time ↦ inr (inr (inr (inr (handled_time c uuid host body asked time))))
    | inr other ↦ inr (inl (rw (handle, asked, other, refused) refl))
  ]
]

-- Where a name and a password are set, a request that has neither the WS-Security header nor the
-- basic authentication for them leaves the event manager as it is, on every route, and is refused,
-- or is told the time of day.
pub serve-IsPublic :
    (c : ServerConfig) (uuid : Text) (w : World) (wait : ℕ) (route : Route) (r : Request)
    (em : Option EventManager)
    → auth_required c ≡ true
    → validate_ws_security_auth c.codecs r.body c.username c.password ≡ false
    → validate_basic_auth r.basic c.username c.password ≡ false
    → ((serve c uuid w wait route r em).0 ≡ em) × IsPublic (serve c uuid w wait route r em).1
unfolding serve handle_snapshot
serve-IsPublic c uuid w wait service r em on no_header no_basic =
    (refl, handle-IsPublic c uuid r.host r.body (refused c r.body on no_header))
serve-IsPublic c uuid w wait events_service r none on no_header no_basic =
    (refl, handle-IsPublic c uuid r.host r.body (refused c r.body on no_header))
serve-IsPublic c uuid w wait events_service r (some em) on no_header no_basic =
    rw (refused c r.body on no_header) (refl, inr (inl refl))
serve-IsPublic c uuid w wait subscription r none on no_header no_basic =
    (refl, handle-IsPublic c uuid r.host r.body (refused c r.body on no_header))
serve-IsPublic c uuid w wait subscription r (some em) on no_header no_basic =
    rw (refused c r.body on no_header) (refl, inr (inl refl))
serve-IsPublic c uuid w wait snapshot r em on no_header no_basic =
    elim (Option-cases c.get_snapshot) [
      | inl off ↦
          rw (serve, off)
            (refl, handle-IsPublic c uuid r.host r.body (refused c r.body on no_header))
      | inr (get, has) ↦
          rw (serve, has) (refl, inr (inr (inl (rw (handle_snapshot, on, no_basic) refl))))
    ]
serve-IsPublic c uuid w wait elsewhere r em on no_header no_basic =
    (refl, inr (inr (inr (inl refl))))
