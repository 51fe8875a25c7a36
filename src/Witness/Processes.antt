-- ===== src/Witness/Processes.antt =====
-- Starting, stopping and watching at concrete worlds.
use cf_masque_opnsense.Prelude.{
  ◌+◌, ◌-◌, ◌*◌, pos, ◌≡◌, refl, inl, Bool, true, false, [], ◌∷◌, arith, length,
}
use cf_masque_opnsense.Text.{codes, text_eq, one_of}
use cf_masque_opnsense.Text.Number.{int, digits_after}
use cf_masque_opnsense.Dict.{Dict, lookup, has}
use cf_masque_opnsense.Outcome.{ok}
use cf_masque_opnsense.Config.{Connection}
use cf_masque_opnsense.Files.{read, plain}
use cf_masque_opnsense.Process.{World, pid_file, read_pid, is_running, connection_running, is_warp}
use cf_masque_opnsense.Process.Laws.{pid_file_injective}
use cf_masque_opnsense.Health.{nap, is_registered}
use cf_masque_opnsense.Health.Transitions.{TakeTurns, restarts}
use cf_masque_opnsense.Health.Checks.{trace, trace-TakeTurns, restarts-trace}
use cf_masque_opnsense.Health.Naps.{clock-nap}
use cf_masque_opnsense.Lifecycle.{
  started, stopped, start_connection, stop_connection, iface_file, await_exit, terminate,
  destroy_iface, cleanup_stale_iface, start_fresh, start_cloudflared, launch,
}
use cf_masque_opnsense.Lifecycle.Start.{MayStart, Alive, start_connection-started}
use cf_masque_opnsense.Lifecycle.Stop.{IsStopped, stop_connection-IsStopped}
use cf_masque_opnsense.Service.{count_running, statuses}
use cf_masque_opnsense.Service.Counts.{enabled_only, connected, count_running-statuses}
use cf_masque_opnsense.Witness.Toys.{
  clock_os, toy_os, toy_crypto, toy_connection, toy_uuid, toy_world,
}

abbrev known_down : Dict Bool
known_down = (toy_uuid, false) ∷ []

pid_file_injective_example :
    (is_warp (codes "cloudflared") ≡ is_warp (codes "tunnel")) × (toy_uuid ≡ toy_uuid)
pid_file_injective_example =
    pid_file_injective toy_uuid toy_uuid (codes "cloudflared") (codes "tunnel")
      (unfold pid_file one_of text_eq in refl)

clock-nap_example :
    (nap clock_os 13 0 12 (record { files = []; sys = 500 })).sys ≡ 500 + (12 - 0) * 1000
clock-nap_example =
    clock-nap clock_os (λ w. w.sys) (λ ms w. refl) (λ w. refl) 13 0 12
      (record { files = []; sys = 500 }) (omega arith)

abbrev after_stop : World Bool
after_stop = (stop_connection toy_os toy_uuid toy_connection (toy_world true)).1

stop_works :
    stop_connection toy_os toy_uuid toy_connection (toy_world true) ≡ (ok stopped, after_stop)
unfolding stop_connection terminate await_exit cleanup_stale_iface destroy_iface read_pid pid_file
    one_of text_eq read lookup int digits_after is_running
stop_works = refl

stop_connection-IsStopped_example :
    IsStopped toy_os toy_uuid
      (pid_file toy_uuid toy_connection.protocol)
      (toy_world true)
      after_stop
stop_connection-IsStopped_example =
    stop_connection-IsStopped toy_os (λ command w. refl) toy_uuid toy_connection (toy_world true)
      after_stop stop_works

toy_registered : is_registered toy_connection.registration_status ≡ true
unfolding is_registered one_of text_eq
toy_registered = refl

found_down : connection_running toy_os toy_uuid toy_connection.protocol (toy_world false) ≡ false
unfolding connection_running read_pid pid_file one_of text_eq read lookup int digits_after
    is_running
found_down = refl

-- Down twice, up, and down again.
trace-TakeTurns_example :
    TakeTurns (connection_running toy_os toy_uuid toy_connection.protocol (toy_world false)) (
      trace toy_os true true toy_uuid toy_connection
        (toy_world false ∷ toy_world false ∷ toy_world true ∷ toy_world false ∷ [])
        [])
trace-TakeTurns_example =
    trace-TakeTurns toy_os toy_uuid toy_connection (toy_world false)
      (toy_world false ∷ toy_world true ∷ toy_world false ∷ []) [] toy_registered
      (unfold lookup in refl)

restarts-trace_example :
    restarts (
      trace toy_os true true toy_uuid toy_connection
        (toy_world false ∷ toy_world false ∷ toy_world false ∷ [])
        [])
    ≡ 1
restarts-trace_example =
    restarts-trace toy_os true true toy_uuid toy_connection (toy_world false)
      (toy_world false ∷ toy_world false ∷ []) [] toy_registered (inl (unfold lookup in refl))
      (found_down, (found_down, (found_down, tt)))

-- A tunnel, which needs no registration.
abbrev toy_tunnel : Connection
toy_tunnel = record toy_connection { protocol = codes "cloudflared"; registration_status = [] }

abbrev tunnel_world : World Bool
tunnel_world = record {
  files = (codes "/usr/local/bin/cloudflared", record { content = plain []; mode = 0o755 }) ∷ [];
  sys = false;
}

tunnel_starts :
    (start_connection toy_os toy_crypto toy_uuid toy_tunnel tunnel_world).0 ≡ ok (started (pos 42))
unfolding start_connection start_fresh start_cloudflared launch cleanup_stale_iface is_registered
    is_running read_pid pid_file one_of text_eq read lookup has iface_file
tunnel_starts = refl

start_connection-started_example :
    (connection_running toy_os toy_uuid toy_tunnel.protocol tunnel_world ≡ false)
    × MayStart toy_tunnel
    × Alive toy_os toy_crypto
        (pos 42)
        (start_connection toy_os toy_crypto toy_uuid toy_tunnel tunnel_world).1
start_connection-started_example =
    start_connection-started toy_os toy_crypto toy_uuid toy_tunnel tunnel_world (pos 42)
      tunnel_starts

-- A connection whose protocol is none of the three.
abbrev odd_connection : Connection
odd_connection = record toy_connection { protocol = codes "openvpn" }

odd_may_not_start : ¬ MayStart odd_connection
unfolding one_of text_eq
odd_may_not_start may = ground arith

count_running-statuses_example :
    count_running toy_os ((toy_uuid, toy_connection) ∷ []) (toy_world true) ≡ (
      connected (statuses toy_os (enabled_only ((toy_uuid, toy_connection) ∷ [])) (toy_world true)),
      length (enabled_only ((toy_uuid, toy_connection) ∷ [])),
    )
count_running-statuses_example =
    count_running-statuses toy_os (toy_world true) ((toy_uuid, toy_connection) ∷ [])
