-- ===== src/Beacon/Radio.antt =====
-- src/beacon_monitor.cpp: when the radio listens. The driver's answers are an argument; the calls
-- that are made of it are part of the result.
use mesh_visualization.Prelude.{
  ℕ, ◌≡◌, Bool, true, false, not, ◌&&◌, ◌||◌, Option, none, some, List, [], ◌∷◌, arith,
  if◌then◌else◌, Bytes,
}
use mesh_visualization.Prelude.Int.{ℤ}
use mesh_visualization.State.{Mac}
use mesh_visualization.Beacon.{Scan, process_beacon_frame}

-- `beacon_monitoring_active` and `promiscuous_mode_active`.
pub record Radio : Type 0 where
  pub beacon_monitoring_active : Bool
  pub promiscuous_mode_active : Bool

-- Whether a call of the driver returns ESP_OK.
pub record Driver : Type 0 where
  pub set_filter_ok : Bool
  pub set_callback_ok : Bool
  pub set_promiscuous_ok : Bool

pub data Call : Type 0 where
  set_filter : Call
  set_callback : Call
  set_promiscuous : Bool → Call

unfoldable pub init_beacon_monitoring : Radio → Radio
init_beacon_monitoring r = record r { beacon_monitoring_active = true }

-- `start_promiscuous_mode`, which is also `start_beacon_scanning`.
unfoldable pub start_promiscuous_mode : Driver → Radio → Radio × List Call
start_promiscuous_mode d r =
    if r.promiscuous_mode_active
    then (r, [])
    else (if not d.set_filter_ok
        then (r, set_filter ∷ [])
        else (if not d.set_callback_ok
            then (r, set_filter ∷ set_callback ∷ [])
            else (if not d.set_promiscuous_ok
                then (r, set_filter ∷ set_callback ∷ set_promiscuous true ∷ [])
                else (
                  record r { promiscuous_mode_active = true },
                  set_filter ∷ set_callback ∷ set_promiscuous true ∷ [],
                ))))

unfoldable stop_promiscuous_mode : Driver → Radio → Radio × List Call
stop_promiscuous_mode d r =
    if not r.promiscuous_mode_active
    then (r, [])
    else (if not d.set_promiscuous_ok
        then (r, set_promiscuous false ∷ [])
        else (record r { promiscuous_mode_active = false }, set_promiscuous false ∷ []))

unfoldable update_beacon_monitoring : Driver → Radio → Radio × List Call
unfolding start_promiscuous_mode
update_beacon_monitoring d r =
    if not r.beacon_monitoring_active
    then (r, [])
    else (if not r.promiscuous_mode_active then start_promiscuous_mode d r else (r, []))

-- A packet that the driver hands over: its frame, the reported length and the signal.
pub record Packet : Type 0 where
  pub is_management : Bool
  pub payload : Bytes
  pub sig_len : ℕ
  pub rssi : ℤ

-- `wifi_promiscuous_callback`; no packet is a null pointer.
unfoldable wifi_promiscuous_callback : Radio → Mac → ℕ → Option Packet → Scan → Option Scan
wifi_promiscuous_callback r own us none s = some s
wifi_promiscuous_callback r own us (some p) s =
    if not r.beacon_monitoring_active || not p.is_management
    then some s
    else process_beacon_frame own us p.payload p.sig_len p.rssi s

-- The state of the driver after the calls that it accepted.
abbrev listening : Driver → Bool → List Call → Bool
listening d on [] = on
listening d on (set_filter ∷ cs) = listening d on cs
listening d on (set_callback ∷ cs) = listening d on cs
listening d on (set_promiscuous b ∷ cs) = listening d (if d.set_promiscuous_ok then b else on) cs

-- Start, stop and the periodic check keep the flag equal to what the driver does, whichever of
-- the driver's calls fail; and the periodic check ends with the radio listening exactly if it
-- listened before, or discovery is active and none of the three calls fails.
promiscuous_mode_tracks :
    (d : Driver) (r : Radio)
    → let started = start_promiscuous_mode d r in
      let stopped = stop_promiscuous_mode d r in
      let updated = update_beacon_monitoring d r in
      (listening d r.promiscuous_mode_active started.1 ≡ started.0.promiscuous_mode_active)
      × (listening d r.promiscuous_mode_active stopped.1 ≡ stopped.0.promiscuous_mode_active)
      × (listening d r.promiscuous_mode_active updated.1 ≡ updated.0.promiscuous_mode_active)
      × (updated.0.promiscuous_mode_active ≡ (
          r.promiscuous_mode_active
          || (r.beacon_monitoring_active
              && (d.set_filter_ok && d.set_callback_ok && d.set_promiscuous_ok))))
unfolding start_promiscuous_mode stop_promiscuous_mode update_beacon_monitoring
promiscuous_mode_tracks d r = (ground arith, ground arith, ground arith, ground arith)
