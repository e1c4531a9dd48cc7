-- ===== src/Tests/App.antt =====
-- The theorems on the loop of the program, at the node `node_a`.
use mesh_visualization.Prelude.{
  ◌⊎◌, ℕ, ◌≡◌, refl, true, false, Option, some, List, [], ◌∷◌, arith, replicate, codes, bytes_eq,
}
use mesh_visualization.Node.Invariant as Noded
use mesh_visualization.App as Ap
use mesh_visualization.App.Valid.{turn, mqtt_event}
use mesh_visualization.App.Start.{Start, Started, app_main}
use mesh_visualization.App.Lives.{Lives, start, then_step, restart, app_main-some, lives-IsValid}
use mesh_visualization.State.{zero_mac}
use mesh_visualization.Manager.{Blob, config_of, config_size}
use mesh_visualization.Manager.Stored.{IsStored}
use mesh_visualization.App.Health.Watch.{watch, stops, reaches, watch-stops}
use mesh_visualization.App.Loop.{Loop, Turn, silent, update_node, update_turn, loop_turn}
use mesh_visualization.App.Loop.Wanted.{Settled, Wanted}
use mesh_visualization.App.Loop.Published.{Published, update_turn_lem}
use mesh_visualization.Tests.{mac_a, manager_a, node_a, answers, child, esp, host, mesh}

-- Attached five seconds after the start, and checked at ten.
abbrev app : Ap.App
app = record {
  node = node_a;
  mesh_stack_initialized = true;
  mesh_rx_task_started = true;
  last_mesh_attached_ms = 5000;
  last_mesh_health_check_ms = 10000;
  last_mesh_reconnect_attempt_ms = 0;
  last_root_ip_ok_ms = 0;
  mesh_status_publish_requested = true;
  tcp_open = false;
  mqtt_client = false;
  mqtt_connected = false;
}

abbrev checks : List ℕ
checks = 20000 ∷ 40000 ∷ 70000 ∷ []

watch-stops_example : stops (watch answers checks app).1 ≡ reaches 65000 checks
watch-stops_example =
    watch-stops answers refl 5000 (omega arith) checks app refl refl (omega arith)
      (omega arith, omega arith, (omega arith, omega arith, (omega arith, omega arith, tt)))

abbrev loop : Loop
loop = record {
  app = app;
  last_state_update = 0;
  last_mesh_state_publish = 0;
  last_neighbor_cleanup = 0;
  last_visualization_update = 0;
  last_published = some node_a.manager.node_state;
}

abbrev next_turn : Turn
next_turn = record {
  now = 150;
  world = child;
  net = answers;
  esp = esp;
  reading = record { sensors_at = 150; temperature_at = 150; now = 150; presence_level = 1 };
  client = some (record { received = codes "SET_STATE 1\n"; stale = [] } ∷ []);
}

update_turn_lem_example :
    let (u, out) = update_turn next_turn loop in
    let n = update_node next_turn node_a in
    (u.app.node.manager ≡ n.manager)
    × Settled u
    × ((Wanted next_turn loop n.manager.node_state × Published next_turn loop n u out)
        ⊎ ((¬ Wanted next_turn loop n.manager.node_state)
            × (u.last_published ≡ loop.last_published)
            × (out ≡ silent)))
update_turn_lem_example = update_turn_lem next_turn loop (omega arith)

abbrev first_start : Start
first_start = record {
  mac = mac_a;
  world = child;
  weights = replicate 9 20000;
  led_created = true;
  esp = esp;
  net = answers;
  driver = record { set_filter_ok = true; set_callback_ok = true; set_promiscuous_ok = true };
}

-- The flash store holds a configuration with a rule.
abbrev blob : Option Blob
blob = some (record { size = config_size; config = config_of manager_a })

blob-IsStored : IsStored blob
blob-IsStored = record {
  kernel = refl;
  rules = refl;
  kernel_counter = omega arith;
  activation_counter = omega arith;
}

mac_a-nonzero : bytes_eq mac_a zero_mac ≡ false
unfolding bytes_eq
mac_a-nonzero = refl

started_first : (t : Started) × (app_main first_start blob ≡ some t)
started_first = app_main-some first_start blob mac_a-nonzero

-- After the first start, a command that resets the value.
abbrev reset_command : Ap.MqttEvent
reset_command = Ap.mqtt_event_data (codes "{\"reset\":true}")

abbrev commanded : Loop
commanded = record (started_first.0.loop) {
  app = (Ap.mqtt_event_handler host mesh reset_command started_first.0.loop.app).0;
}

-- Then a turn with a client, and a restart.
abbrev served : Loop
served = (loop_turn next_turn commanded).0

started_again : (t : Started) × (app_main first_start served.app.node.manager.stored ≡ some t)
started_again = app_main-some first_start served.app.node.manager.stored mac_a-nonzero

life : Lives blob started_again.0.loop
life =
    restart first_start started_again.0
      (then_step
        (then_step (start first_start started_first.0 refl started_first.1)
          (mqtt_event host mesh reset_command started_first.0.loop))
        (turn next_turn commanded))
      refl started_again.1

lives-IsValid_example : Noded.IsValid started_again.0.loop.app.node
lives-IsValid_example = lives-IsValid blob blob-IsStored life
