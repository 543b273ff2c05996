-- ===== src/App/Messages/Sources.antt =====
-- What the camera's messages make of the baby's state.
use nanit_onvif.Prelude.{
  Option, none, some, String, List, [], ◌∷◌, ◌≡◌, ◌≢◌, refl, sym, ◌∙◌, String_eq, beq_refl,
  beq-eq-false,
}
use nanit_onvif.Baby.State.{State, new_state}
use nanit_onvif.Baby.State.Overlay.{overlay}
use nanit_onvif.Baby.Manager.{StateManager, update, get_baby_state}
use nanit_onvif.Baby.Manager.Updates.{get_baby_state-update}
use nanit_onvif.App.Sensors.{
  SensorData, Control, Settings, Status, Outcome, ok, nil_pointer, sensor_update, control_update,
  settings_update, status_update, process_sensor_data, process_control, process_settings,
  process_status,
}
use nanit_onvif.App.Messages.{
  RequestType, get_sensor_data, put_sensor_data, get_settings, put_settings, get_status, put_status,
  put_control, other_type, Contents, Message, keepalive, request, response, sensors_if_any,
  on_response, on_request, on_message, on_messages,
}

-- The update that a message stands for, if any: a camera's own report in a request, its answer in a
-- response. Control has a report only, and only sensor data may panic.
abbrev pub Update : Type 0
Update = Outcome (Option State)

abbrev pub sensors : List SensorData → Update
sensors [] = ok none
sensors (d ∷ ds) = elim (sensor_update (d ∷ ds) new_state) [
  | ok u ↦ ok (some u)
  | nil_pointer ↦ nil_pointer
]

abbrev pub update_if {ℓ} : {A : Type ℓ} → (A → State) → Option A → Update
update_if f none = ok none
update_if f (some a) = ok (some (f a))

abbrev pub reported : RequestType → Contents → Update
reported put_sensor_data c = sensors c.sensor_data
reported put_control c = update_if control_update c.control
reported put_settings c = update_if settings_update c.settings
reported put_status c = update_if status_update c.status
reported _ c = ok none

abbrev pub answered : RequestType → Contents → Update
answered get_sensor_data c = sensors c.sensor_data
answered get_settings c = update_if settings_update c.settings
answered put_settings c = update_if settings_update c.settings
answered get_status c = update_if status_update c.status
answered put_status c = update_if status_update c.status
answered _ c = ok none

abbrev pub update_of : Message → Update
update_of keepalive = ok none
update_of (request none) = ok none
update_of (request (some c)) = reported c.request_type c
update_of (response none) = ok none
update_of (response (some c)) = answered c.request_type c

abbrev apply : String → Update → StateManager → Outcome StateManager
apply uid (ok none) m = ok m
apply uid (ok (some u)) m = ok (update m uid u)
apply uid nil_pointer m = nil_pointer

sensors-apply :
    (uid : String) (ds : List SensorData) (m : StateManager)
    → sensors_if_any uid ds m ≡ apply uid (sensors ds) m
unfolding sensors_if_any process_sensor_data
sensors-apply uid [] m = refl
sensors-apply uid (d ∷ ds) m = by_outcome (sensor_update (d ∷ ds) new_state)
  where
    by_outcome :
        (o : Outcome State)
        → (elim o [ ok u ↦ ok (update m uid u) | nil_pointer ↦ nil_pointer ])
          ≡ apply uid (elim o [ ok u ↦ ok (some u) | nil_pointer ↦ nil_pointer ]) m
    by_outcome (ok u) = refl
    by_outcome nil_pointer = refl

control-apply :
    (uid : String) (o : Option Control) (m : StateManager)
    → ok (process_control uid o m) ≡ apply uid (update_if control_update o) m
unfolding process_control
control-apply uid none m = refl
control-apply uid (some c) m = refl

settings-apply :
    (uid : String) (o : Option Settings) (m : StateManager)
    → ok (process_settings uid o m) ≡ apply uid (update_if settings_update o) m
unfolding process_settings
settings-apply uid none m = refl
settings-apply uid (some c) m = refl

status-apply :
    (uid : String) (o : Option Status) (m : StateManager)
    → ok (process_status uid o m) ≡ apply uid (update_if status_update o) m
unfolding process_status
status-apply uid none m = refl
status-apply uid (some c) m = refl

request-apply :
    (uid : String) (t : RequestType) (c : Contents) (m : StateManager)
    → on_request uid t c m ≡ apply uid (reported t c) m
unfolding on_request
request-apply uid put_sensor_data c m = sensors-apply uid c.sensor_data m
request-apply uid put_control c m = control-apply uid c.control m
request-apply uid put_settings c m = settings-apply uid c.settings m
request-apply uid put_status c m = status-apply uid c.status m
request-apply uid get_sensor_data c m = refl
request-apply uid get_settings c m = refl
request-apply uid get_status c m = refl
request-apply uid (other_type n) c m = refl

response-apply :
    (uid : String) (t : RequestType) (c : Contents) (m : StateManager)
    → on_response uid t c m ≡ apply uid (answered t c) m
unfolding on_response
response-apply uid get_sensor_data c m = sensors-apply uid c.sensor_data m
response-apply uid get_settings c m = settings-apply uid c.settings m
response-apply uid put_settings c m = settings-apply uid c.settings m
response-apply uid get_status c m = status-apply uid c.status m
response-apply uid put_status c m = status-apply uid c.status m
response-apply uid put_sensor_data c m = refl
response-apply uid put_control c m = refl
response-apply uid (other_type n) c m = refl

on_message-apply :
    (uid : String) (x : Message) (m : StateManager) → on_message uid x m ≡ apply uid (update_of x) m
unfolding on_message
on_message-apply uid keepalive m = refl
on_message-apply uid (request none) m = refl
on_message-apply uid (request (some c)) m = request-apply uid c.request_type c m
on_message-apply uid (response none) m = refl
on_message-apply uid (response (some c)) m = response-apply uid c.request_type c m

-- A state with the updates of messages laid over it in turn, or none where one of them panics.
abbrev overlay_if : Option State → State → State
overlay_if none s = s
overlay_if (some u) s = overlay s u

pub overlay_all : List Message → State → Outcome State
overlay_all [] s = ok s
overlay_all (x ∷ xs) s = elim (update_of x) [
  | ok u ↦ overlay_all xs (overlay_if u s)
  | nil_pointer ↦ nil_pointer
]

abbrev pub Laid : String → Outcome StateManager → Outcome State → StateManager → Type 0
Laid uid (ok m') o m =
    (o ≡ ok (get_baby_state m' uid))
    × ((j : String) → j ≢ uid → get_baby_state m' j ≡ get_baby_state m j)
Laid uid nil_pointer o m = o ≡ nil_pointer

Laid-after :
    (uid : String) (r : Outcome StateManager) (o : Outcome State) (m m' : StateManager)
    → ((j : String) → j ≢ uid → get_baby_state m' j ≡ get_baby_state m j)
    → Laid uid r o m'
    → Laid uid r o m
Laid-after uid (ok m'') o m m' same (here, others) = (here, λ j ne. others j ne ∙ same j ne)
Laid-after uid nil_pointer o m m' same h = h

updated_here :
    (uid : String) (u : State) (m : StateManager)
    → get_baby_state (update m uid u) uid ≡ overlay (get_baby_state m uid) u
updated_here uid u m = get_baby_state-update m uid u uid ∙ rw (beq_refl uid) refl

updated_others :
    (uid : String) (u : State) (m : StateManager) (j : String)
    → j ≢ uid
    → get_baby_state (update m uid u) j ≡ get_baby_state m j
updated_others uid u m j ne =
    get_baby_state-update m uid u j ∙ rw (beq-eq-false uid j (λ e. ne (sym e))) refl

module _ (uid : String) (xs : List Message) (m : StateManager) where
  Laid-cons :
      (a : Outcome StateManager) (o : Update)
      → a ≡ apply uid o m
      → ((m' : StateManager)
          → Laid uid (on_messages uid xs m') (overlay_all xs (get_baby_state m' uid)) m')
      → Laid uid
          (elim a [ ok m' ↦ on_messages uid xs m' | nil_pointer ↦ nil_pointer ])
          (elim o [
            | ok u ↦ overlay_all xs (overlay_if u (get_baby_state m uid))
            | nil_pointer ↦ nil_pointer
          ])
          m
  Laid-cons a (ok none) e ih = rw (e) (ih m)
  Laid-cons a (ok (some u)) e ih =
      rw (e, ← updated_here uid u m)
        (Laid-after uid (on_messages uid xs (update m uid u))
          (overlay_all xs (get_baby_state (update m uid u) uid)) m (update m uid u)
          (updated_others uid u m) (ih (update m uid u)))
  Laid-cons a nil_pointer e ih = rw (e) refl

-- Whatever messages a camera sends, the state of its baby is its state before with the updates that
-- they stand for laid over it in turn, and no other baby's state changes; the handler panics exactly
-- where one of them stands for a panic.
pub on_messages-Laid :
    (uid : String) (xs : List Message) (m : StateManager)
    → Laid uid (on_messages uid xs m) (overlay_all xs (get_baby_state m uid)) m
unfolding on_messages overlay_all
on_messages-Laid uid [] m = (refl, λ j ne. refl)
on_messages-Laid uid (x ∷ xs) m =
    Laid-cons uid xs m (on_message uid x m) (update_of x) (on_message-apply uid x m)
      (λ m'. on_messages-Laid uid xs m')
